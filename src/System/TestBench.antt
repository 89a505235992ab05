-- ===== src/System/TestBench.antt =====
-- The system of simple_bus_headers/simple_bus_test.h: three masters, a fast and a slow memory on one bus.
use simple_bus_mdu.Prelude.{ℕ, false, Bool, none, [], ◌∷◌, Outcome, returns, ◌>>=◌}
use simple_bus_mdu.Types.{Status, SlaveIf}
use simple_bus_mdu.Bus.Forms.{Bus}
use simple_bus_mdu.FastMem
use simple_bus_mdu.FastMem.{FastMem, fast_mem}
use simple_bus_mdu.SlowMem
use simple_bus_mdu.SlowMem.{SlowMem, slow_mem}
use simple_bus_mdu.Masters.Loops.{BlockingMaster, NonBlockingMaster, DirectMaster}

pub data TestSlave : Type 0 where
  mem_slow : SlowMem → TestSlave
  mem_fast : FastMem → TestSlave

unfoldable pub read : TestSlave → ℕ → ℕ → Outcome (Status × ℕ × TestSlave)
read (mem_slow m) d a = slow_mem.read m d a >>= λ (st, d', m'). returns (st, d', mem_slow m')
read (mem_fast m) d a = fast_mem.read m d a >>= λ (st, d', m'). returns (st, d', mem_fast m')

unfoldable pub write : TestSlave → ℕ → ℕ → Outcome (Status × TestSlave)
write (mem_slow m) d a = slow_mem.write m d a >>= λ (st, m'). returns (st, mem_slow m')
write (mem_fast m) d a = fast_mem.write m d a >>= λ (st, m'). returns (st, mem_fast m')

unfoldable pub direct_read : TestSlave → ℕ → ℕ → Outcome (Bool × ℕ)
direct_read (mem_slow m) d a = slow_mem.direct_read m d a
direct_read (mem_fast m) d a = fast_mem.direct_read m d a

unfoldable pub direct_write : TestSlave → ℕ → ℕ → Outcome (Bool × TestSlave)
direct_write (mem_slow m) d a =
    slow_mem.direct_write m d a >>= λ (done, m'). returns (done, mem_slow m')
direct_write (mem_fast m) d a =
    fast_mem.direct_write m d a >>= λ (done, m'). returns (done, mem_fast m')

abbrev pub start_address : TestSlave → ℕ
start_address (mem_slow m) = slow_mem.start_address m
start_address (mem_fast m) = fast_mem.start_address m

abbrev pub end_address : TestSlave → ℕ
end_address (mem_slow m) = slow_mem.end_address m
end_address (mem_fast m) = fast_mem.end_address m

abbrev pub posedge : TestSlave → TestSlave
posedge (mem_slow m) = mem_slow (slow_mem.posedge m)
posedge (mem_fast m) = mem_fast (fast_mem.posedge m)

instance abbrev pub test_slave : SlaveIf TestSlave
test_slave = record {
  read = read;
  write = write;
  direct_read = direct_read;
  direct_write = direct_write;
  start_address = start_address;
  end_address = end_address;
  posedge = posedge;
}

-- `simple_bus_test`
pub record SimpleBusTest : Type 0 where
  pub master_b : BlockingMaster
  pub master_nb : NonBlockingMaster
  pub master_d : DirectMaster
  pub bus : Bus TestSlave

-- The constructor. The slow memory is the first slave of the bus.
unfoldable pub simple_bus_test : (ℕ → ℕ) → Outcome SimpleBusTest
simple_bus_test cells = FastMem.new 0x00 0x7f >>= λ fast. SlowMem.new 0x80 0xff 1 >>= λ slow.
    returns (record {
      master_b = record {
        m_unique_priority = 4;
        m_address = 0x4c;
        m_lock = false;
        m_timeout = 300;
      };
      master_nb = record {
        m_unique_priority = 3;
        m_start_address = 0x38;
        m_lock = false;
        m_timeout = 20;
      };
      master_d = record { m_address = 0x78; m_timeout = 100 };
      bus = record {
        requests = [];
        current = none;
        slave_port = mem_slow slow ∷ mem_fast fast ∷ [];
        cells = cells;
      };
    })

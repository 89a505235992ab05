-- ===== src/System.antt =====
-- The slaves of the whole system, with the MIPS: the unit and the memory on one bus, as in the lines
-- of src/main.cpp that are commented out.
pub mod Mounts
pub mod TestBench
pub mod Main
use simple_bus_mdu.Prelude.{ℕ, Bool, Outcome, returns, ◌>>=◌, ◌≡◌, refl}
use simple_bus_mdu.Types.{Status, SlaveIf, KeepsRange}
use simple_bus_mdu.Mdu.{Mdu, mdu}
use simple_bus_mdu.MemMips.{MemMips, mem_mips}

pub data Slave : Type 0 where
  unit : Mdu → Slave
  memory : MemMips → Slave

unfoldable pub read : Slave → ℕ → ℕ → Outcome (Status × ℕ × Slave)
read (unit m) d a = mdu.read m d a >>= λ (st, d', m'). returns (st, d', unit m')
read (memory m) d a = mem_mips.read m d a >>= λ (st, d', m'). returns (st, d', memory m')

unfoldable pub write : Slave → ℕ → ℕ → Outcome (Status × Slave)
write (unit m) d a = mdu.write m d a >>= λ (st, m'). returns (st, unit m')
write (memory m) d a = mem_mips.write m d a >>= λ (st, m'). returns (st, memory m')

unfoldable pub direct_read : Slave → ℕ → ℕ → Outcome (Bool × ℕ)
direct_read (unit m) d a = mdu.direct_read m d a
direct_read (memory m) d a = mem_mips.direct_read m d a

unfoldable pub direct_write : Slave → ℕ → ℕ → Outcome (Bool × Slave)
direct_write (unit m) d a = mdu.direct_write m d a >>= λ (done, m'). returns (done, unit m')
direct_write (memory m) d a =
    mem_mips.direct_write m d a >>= λ (done, m'). returns (done, memory m')

abbrev pub start_address : Slave → ℕ
start_address (unit m) = mdu.start_address m
start_address (memory m) = mem_mips.start_address m

abbrev pub end_address : Slave → ℕ
end_address (unit m) = mdu.end_address m
end_address (memory m) = mem_mips.end_address m

abbrev pub posedge : Slave → Slave
posedge (unit m) = unit (mdu.posedge m)
posedge (memory m) = memory (mem_mips.posedge m)

instance abbrev pub slave : SlaveIf Slave
slave = record {
  read = read;
  write = write;
  direct_read = direct_read;
  direct_write = direct_write;
  start_address = start_address;
  end_address = end_address;
  posedge = posedge;
}

-- ===== src/SlowMem.antt =====
-- The memory with wait states: simple_bus_headers/simple_bus_slow_mem.h.
pub mod Timing
pub mod Reads
use simple_bus_mdu.Prelude.{
  ℕ, zero, suc, ◌+◌, ◌-◌, ◌/◌, ◌%◌, ◌^◌, Bool, true, false, Option, none, some, List, Outcome,
  returns, fault, out_of_bounds, assert_failed, get_elem?, set, replicate, leb, ◌==◌, ◌&&◌,
  if◌then◌else◌, ◌>>=◌,
}
use simple_bus_mdu.Prelude.Int.{ℤ, pos, negsuc}
use simple_bus_mdu.Word.{signed32}
use simple_bus_mdu.Types.{Status, ok, wait, u32, SlaveIf}

-- `class simple_bus_slow_mem`. A word is an `int`, kept as its 32-bit pattern; `m_wait_count` is an
-- `int` too, and `m_nr_wait_states` is unsigned.
pub record SlowMem : Type 0 where
  pub mem : List ℕ
  pub m_start_address : ℕ
  pub m_end_address : ℕ
  pub m_nr_wait_states : ℕ
  pub m_wait_count : ℤ

-- The constructor, with its two assertions.
unfoldable pub new : ℕ → ℕ → ℕ → Outcome SlowMem
new start finish nr_wait_states =
    if leb start finish && u32 (u32 (finish + 2 ^ 32 - start) + 1) % 4 == 0
    then returns (record {
      mem = replicate (u32 (u32 (finish + 2 ^ 32 - start) + 1) / 4) 0;
      m_start_address = start;
      m_end_address = finish;
      m_nr_wait_states = nr_wait_states;
      m_wait_count = negsuc 0;
    })
    else fault assert_failed

-- `wait_loop`, at each rising edge
abbrev pub wait_down : ℤ → ℤ
wait_down (pos zero) = negsuc 0
wait_down (pos (suc n)) = pos n
wait_down (negsuc n) = negsuc n

abbrev pub wait_loop : SlowMem → SlowMem
wait_loop m = record m { m_wait_count = wait_down m.m_wait_count }

-- `(address - m_start_address) / 4`
abbrev pub index_of : SlowMem → ℕ → ℕ
index_of m address = u32 (address + 2 ^ 32 - m.m_start_address) / 4

-- `MEM[...]` read and written; a word outside the array is undefined behaviour.
unfoldable pub load : SlowMem → ℕ → Outcome ℕ
load m address = elim (get_elem? m.mem (index_of m address)) [
  | none ↦ fault out_of_bounds
  | some w ↦ returns w
]

unfoldable pub store : SlowMem → ℕ → ℕ → Outcome SlowMem
store m d address = elim (get_elem? m.mem (index_of m address)) [
  | none ↦ fault out_of_bounds
  | some w ↦ returns (record m { mem = set m.mem (index_of m address) d })
]

unfoldable pub direct_read : SlowMem → ℕ → ℕ → Outcome (Bool × ℕ)
direct_read m d address = load m address >>= λ w. returns (true, w)

unfoldable pub direct_write : SlowMem → ℕ → ℕ → Outcome (Bool × SlowMem)
direct_write m d address = store m d address >>= λ m'. returns (true, m')

-- A new call is accepted: the count starts. The unsigned number of wait states becomes an `int`.
abbrev pub accept : SlowMem → SlowMem
accept m = record m { m_wait_count = signed32 m.m_nr_wait_states }

unfoldable pub read_at : ℤ → SlowMem → ℕ → ℕ → Outcome (Status × ℕ × SlowMem)
read_at (negsuc n) m d address = returns (wait, d, accept m)
read_at (pos zero) m d address = load m address >>= λ w. returns (ok, w, m)
read_at (pos (suc n)) m d address = returns (wait, d, m)

unfoldable pub read : SlowMem → ℕ → ℕ → Outcome (Status × ℕ × SlowMem)
unfolding read_at
read m d address = read_at m.m_wait_count m d address

unfoldable pub write_at : ℤ → SlowMem → ℕ → ℕ → Outcome (Status × SlowMem)
write_at (negsuc n) m d address = returns (wait, accept m)
write_at (pos zero) m d address = store m d address >>= λ m'. returns (ok, m')
write_at (pos (suc n)) m d address = returns (wait, m)

unfoldable pub write : SlowMem → ℕ → ℕ → Outcome (Status × SlowMem)
unfolding write_at
write m d address = write_at m.m_wait_count m d address

instance abbrev pub slow_mem : SlaveIf SlowMem
slow_mem = record {
  read = read;
  write = write;
  direct_read = direct_read;
  direct_write = direct_write;
  start_address = λ m. m.m_start_address;
  end_address = λ m. m.m_end_address;
  posedge = wait_loop;
}

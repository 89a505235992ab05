-- ===== src/FastMem.antt =====
-- The memory that answers at once: simple_bus_headers/simple_bus_fast_mem.h.
pub mod Laws
pub mod Bursts
pub mod BurstWrites
use simple_bus_mdu.Prelude.{
  ℕ, ◌+◌, ◌-◌, ◌/◌, ◌%◌, ◌^◌, ◌≡◌, refl, Bool, true, false, Option, none, some, List, Outcome,
  returns, fault, out_of_bounds, assert_failed, get_elem?, set, replicate, length, ltb, leb, ◌==◌,
  ◌&&◌, if◌then◌else◌, ◌>>=◌,
}
use simple_bus_mdu.Types.{Status, ok, u32, SlaveIf, KeepsRange}

-- `class simple_bus_fast_mem`. A word is an `int`, kept as its 32-bit pattern.
pub record FastMem : Type 0 where
  pub mem : List ℕ
  pub m_start_address : ℕ
  pub m_end_address : ℕ

-- The size in words that the constructor allocates.
abbrev pub words : ℕ → ℕ → ℕ
words start finish = u32 (u32 (finish + 2 ^ 32 - start) + 1) / 4

-- The constructor, with its two assertions.
unfoldable pub new : ℕ → ℕ → Outcome FastMem
new start finish =
    if leb start finish && u32 (u32 (finish + 2 ^ 32 - start) + 1) % 4 == 0
    then returns (record {
      mem = replicate (words start finish) 0;
      m_start_address = start;
      m_end_address = finish;
    })
    else fault assert_failed

-- `(address - m_start_address) / 4`
abbrev pub index_of : FastMem → ℕ → ℕ
index_of m address = u32 (address + 2 ^ 32 - m.m_start_address) / 4

-- `read` stores the word through the pointer; a word outside the array is undefined behaviour.
unfoldable pub read : FastMem → ℕ → ℕ → Outcome (Status × ℕ × FastMem)
read m d address = elim (get_elem? m.mem (index_of m address)) [
  | none ↦ fault out_of_bounds
  | some w ↦ returns (ok, w, m)
]

unfoldable pub write : FastMem → ℕ → ℕ → Outcome (Status × FastMem)
write m d address = elim (get_elem? m.mem (index_of m address)) [
  | none ↦ fault out_of_bounds
  | some w ↦ returns (ok, record m { mem = set m.mem (index_of m address) d })
]

abbrev is_ok : Status → Bool
is_ok ok = true
is_ok _ = false

unfoldable pub direct_read : FastMem → ℕ → ℕ → Outcome (Bool × ℕ)
unfolding read
direct_read m d address = read m d address >>= λ (st, d', m'). returns (is_ok st, d')

unfoldable pub direct_write : FastMem → ℕ → ℕ → Outcome (Bool × FastMem)
unfolding write
direct_write m d address = write m d address >>= λ (st, m'). returns (is_ok st, m')

-- The memory has no clock.
instance abbrev pub fast_mem : SlaveIf FastMem
fast_mem = record {
  read = read;
  write = write;
  direct_read = direct_read;
  direct_write = direct_write;
  start_address = λ m. m.m_start_address;
  end_address = λ m. m.m_end_address;
  posedge = λ m. m;
}

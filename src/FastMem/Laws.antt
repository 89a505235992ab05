-- ===== src/FastMem/Laws.antt =====
-- What simple_bus_headers/simple_bus_fast_mem.h promises: every word of its range is there, and is
-- what was last written.
use simple_bus_mdu.Prelude.{
  ℕ, suc, ◌+◌, ◌-◌, ◌*◌, ◌/◌, ◌^◌, ◌≤◌, ◌<◌, ◌≡◌, ◌≢◌, refl, ap, ◌∙◌, returns, set, length,
  length-set, length-replicate, get_elem?-some, arith, ◌==◌, word_at, word_at-set, if◌then◌else◌,
}
use simple_bus_mdu.Types.{ok, KeepsRange}
use simple_bus_mdu.FastMem.{FastMem, new, index_of, words, read, write, fast_mem}

-- The array has a word for every four addresses of the range.
pub record IsWellFormed (m : FastMem) : Type 0 where
  pub ordered : m.m_start_address ≤ m.m_end_address
  pub small : m.m_end_address < 2 ^ 32
  pub sized : m.m_start_address + 4 * length m.mem ≡ suc m.m_end_address

-- An address of the memory.
abbrev pub Holds : FastMem → ℕ → Type 0
Holds m a = (m.m_start_address ≤ a) × (a ≤ m.m_end_address)

pub index-lt : (m : FastMem) (a : ℕ) → IsWellFormed m → Holds m a → index_of m a < length m.mem
index-lt m a w h = omega arith

-- What the constructor builds is well formed, but for the one range that is all of the address
-- space, whose size does not fit in an `unsigned int`.
pub new-IsWellFormed :
    (start finish : ℕ) {m : FastMem}
    → new start finish ≡ returns m
    → finish < 2 ^ 32
    → finish - start ≢ 2 ^ 32 - 1
    → IsWellFormed m
unfolding new
new-IsWellFormed start finish {m} e h n =
    ground (arith, length-replicate {A = ℕ} (words start finish) 0)

pub read-word_at :
    (m : FastMem) (d a : ℕ)
    → IsWellFormed m
    → Holds m a
    → read m d a ≡ returns (ok, word_at m.mem (index_of m a), m)
unfolding read
read-word_at m d a w h =
    let (v, e) = get_elem?-some m.mem (index_of m a) (index-lt m a w h) in ground arith

-- The word of the memory that holds the byte of the address, counted from its start.
abbrev pub word_number : FastMem → ℕ → ℕ
word_number m a = (a - m.m_start_address) / 4

index_of-word_number :
    (m : FastMem) (a : ℕ) → IsWellFormed m → Holds m a → index_of m a ≡ word_number m a
index_of-word_number m a w h = omega arith

-- A write in a well-formed memory, at an address that it holds, is seen by a later read of any
-- address that it holds: where the two are of the same four bytes, counted from the start of the memory,
-- it gives what was written, and else what a read gave before. The memory stays well formed.
pub read-write :
    (m : FastMem) (d a x b : ℕ)
    → IsWellFormed m
    → Holds m a
    → Holds m b
    → (m' : FastMem) × (v : ℕ) × (write m d a ≡ returns (ok, m'))
      × IsWellFormed m'
      × (v ≡ word_at m.mem (word_number m b))
      × (read m x b ≡ returns (ok, v, m))
      × (read m' x b ≡ returns (ok, (if word_number m b == word_number m a then d else v), m'))
read-write m d a x b w ha hb =
    let i : ℕ = index_of m a in
    let (v, e) = get_elem?-some m.mem i (index-lt m a w ha) in
    let m' : FastMem = record m { mem = set m.mem i d } in
    let well : IsWellFormed m' = record {
      ordered = w.ordered;
      small = w.small;
      sized = omega (arith, w, length-set m.mem i d);
    } in
    let at_a = index_of-word_number m a w ha in
    let at_b = index_of-word_number m b w hb in
    (
      m',
      word_at m.mem (word_number m b),
      unfold write in ground arith,
      well,
      refl,
      read-word_at m x b w hb ∙ ap (λ j. returns (ok, word_at m.mem j, m)) at_b,
      read-word_at m' x b well hb
          ∙ ap (λ u. returns (ok, u, m')) (word_at-set m.mem i (index_of m b) d (index-lt m a w ha))
          ∙ ap (λ t. returns (ok, (if t == i then d else word_at m.mem t), m')) at_b
          ∙ ap
              (λ t.
                returns
                  (ok, (if word_number m b == t then d else word_at m.mem (word_number m b)), m'))
              at_a,
    )

pub fast_mem-KeepsRange : KeepsRange fast_mem
unfolding read write
fast_mem-KeepsRange = record {
  read_start = λ s d a e. ground arith;
  read_end = λ s d a e. ground arith;
  write_start = λ s d a e. ground arith;
  write_end = λ s d a e. ground arith;
  posedge_start = λ s. refl;
  posedge_end = λ s. refl;
}

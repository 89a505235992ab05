-- ===== src/Masters/Repeated.antt =====
-- What many rounds of the blocking master do to the memory of
-- simple_bus_headers/simple_bus_fast_mem.h: src/simple_bus_master_blocking.cpp.
use native.Mathlib.Nat.{suc-mul}
use simple_bus_mdu.Prelude.{
  ℕ, zero, suc, ◌+◌, ◌-◌, ◌*◌, ◌%◌, ◌^◌, ◌<◌, ◌≡◌, refl, ◌∙◌, false, some, returns, word_at, ◌&&◌,
  leb, ltb, if◌then◌else◌, arith, Bool-cases, inl, inr,
}
use simple_bus_mdu.Types.{u32}
use simple_bus_mdu.Bus.Forms.{Bus}
use simple_bus_mdu.Bus.Quiet.{Quiet}
use simple_bus_mdu.Bus.Mounted.{Mounted}
use simple_bus_mdu.FastMem.{FastMem, index_of, fast_mem}
use simple_bus_mdu.FastMem.Laws.{IsWellFormed, Holds}
use simple_bus_mdu.Masters.BlockingRound.{Passed, tick-Passed, raised, blocking_round-raised}
use simple_bus_mdu.Masters.Loops.{BlockingMaster, ticks, blocking_rounds}

pub ticks-Passed :
    (n : ℕ) (b : Bus FastMem) (k : ℕ) (m : FastMem)
    → Quiet b
    → Mounted b.slave_port k m
    → Passed b k m (ticks n b) b.cells
unfolding ticks
ticks-Passed zero b k m q mounted = record {
  after = b;
  computed = refl;
  quiet = q;
  mounted = mounted;
  stored = λ j. refl;
  valid = λ v. v;
}
ticks-Passed (suc n) b k m q mounted =
    let one = tick-Passed b k m q mounted in
    let rest = ticks-Passed n one.after k m one.quiet one.mounted in
    record {
      after = rest.after;
      computed = rw one.computed rest.computed;
      quiet = rest.quiet;
      mounted = rest.mounted;
      stored = λ j. rest.stored j ∙ one.stored j;
      valid = λ v. rest.valid (one.valid v);
    }

-- The word `w` of index `x` once its place among the `size` words from the index `i` on has been added to
-- it `n` times, where it is one of them.
abbrev pub raised_times : ℕ → ℕ → ℕ → ℕ → ℕ → ℕ
raised_times size n i x w = if leb i x && ltb x (i + size) then u32 (w + n * (x - i)) else w

pub next_sum : (w n d : ℕ) → u32 (u32 (w + d) + n * d) ≡ u32 (w + suc n * d)
next_sum w n d = let product : suc n * d ≡ n * d + d = suc-mul n d in omega (arith, product)

raised_once :
    (m : FastMem) (n i x : ℕ)
    → raised_times 16 n i x (raised m i x) ≡ raised_times 16 (suc n) i x (word_at m.mem x)
raised_once m n i x = elim (Bool-cases (leb i x && ltb x (i + 16))) [
  | inl e ↦ rw e (next_sum (word_at m.mem x) n (x - i))
  | inr e ↦ rw e refl
]

raised-lt : (m : FastMem) (i x : ℕ) → word_at m.mem x < 2 ^ 32 → raised m i x < 2 ^ 32
raised-lt m i x h = elim (Bool-cases (leb i x && ltb x (i + 16))) [
  | inl e ↦ rw e (omega arith)
  | inr e ↦ rw e h
]

pub none_raised : (size i x w : ℕ) → w < 2 ^ 32 → w ≡ raised_times size 0 i x w
none_raised size i x w h = elim (Bool-cases (leb i x && ltb x (i + size))) [
  | inl e ↦ rw e (omega arith)
  | inr e ↦ rw e refl
]

-- The blocking master without a lock, alone on a quiet bus with a well-formed memory of 32-bit words that
-- holds the 64 bytes from its address on, a multiple of 4 below the end of the address space, given more
-- than 15 cycles for each burst: any number `n` of rounds of its loop come to an end, with the bus quiet.
-- To each of the 16 words its index in the burst has been added `n` times, modulo 2 ^ 32, and every other
-- word of the memory is as before.
pub blocking_rounds-raised :
    (n fuel : ℕ) (master : BlockingMaster) (b : Bus FastMem) (k : ℕ) (m : FastMem)
    → master.m_lock ≡ false
    → Quiet b
    → Mounted b.slave_port k m
    → IsWellFormed m
    → ((x : ℕ) → word_at m.mem x < 2 ^ 32)
    → Holds m master.m_address
    → Holds m (master.m_address + 63)
    → master.m_address % 4 ≡ 0
    → master.m_address + 64 < 2 ^ 32
    → 15 < fuel
    → (b' : Bus FastMem) × (m' : FastMem) × (blocking_rounds n fuel master b ≡ returns (some b'))
      × Quiet b'
      × Mounted b'.slave_port k m'
      × ((x : ℕ)
          → word_at m'.mem x ≡ raised_times 16 n (index_of m master.m_address) x (word_at m.mem x))
unfolding blocking_rounds
blocking_rounds-raised zero fuel master b k m free q mounted v words first last aligned small
      enough =
    (
      b,
      m,
      refl,
      q,
      mounted,
      λ x. none_raised 16 (index_of m master.m_address) x (word_at m.mem x) (words x),
    )
blocking_rounds-raised (suc n) fuel master b k m free q mounted v words first last aligned small
      enough =
    let a : ℕ = master.m_address in
    let (b1, m1, round, q1, mounted1, v1, start, end, raised1) =
      blocking_round-raised b k m master.m_unique_priority a fuel q mounted v first last aligned
        small enough in
    let waits = ticks-Passed (master.m_timeout - 1) b1 k m1 q1 mounted1 in
    let (b', m', rest, q', mounted', raised') =
      blocking_rounds-raised n fuel master waits.after k m1 free waits.quiet waits.mounted v1
        (λ x. rw (raised1 x) (raised-lt m (index_of m a) x (words x)))
        (omega (arith, start, end, first)) (omega (arith, start, end, last)) aligned small enough in
    let same : index_of m1 a ≡ index_of m a = rw start refl in
    (
      b',
      m',
      rw (free, round, waits.computed) rest,
      q',
      mounted',
      λ x. raised' x ∙ rw (same, raised1 x) (raised_once m n (index_of m a) x),
    )

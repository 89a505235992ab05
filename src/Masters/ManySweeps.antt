-- ===== src/Masters/ManySweeps.antt =====
-- The endless loop of the non-blocking master, for any number of sweeps over the memory of
-- simple_bus_headers/simple_bus_fast_mem.h: src/simple_bus_master_non_blocking.cpp.
use simple_bus_mdu.Prelude.{
  ℕ, zero, suc, ◌+◌, ◌-◌, ◌*◌, ◌%◌, ◌^◌, ◌<◌, ◌≡◌, refl, ap, sym, ◌∙◌, false, some, returns,
  word_at, ◌&&◌, leb, ltb, arith, Bool-cases, inl, inr,
}
use simple_bus_mdu.Bus.Forms.{Bus}
use simple_bus_mdu.Bus.Invariant.{IsValid}
use simple_bus_mdu.Bus.Quiet.{Quiet}
use simple_bus_mdu.Bus.Mounted.{Mounted}
use simple_bus_mdu.FastMem.{FastMem, index_of, fast_mem}
use simple_bus_mdu.FastMem.Laws.{IsWellFormed, Holds}
use simple_bus_mdu.Masters.BlockingRound.{tick-Passed}
use simple_bus_mdu.Masters.Repeated.{raised_times, next_sum, none_raised}
use simple_bus_mdu.Masters.Sweeps.{HoldsSweep, sweep_from, swept}
use simple_bus_mdu.Masters.Loops.{NonBlockingMaster, non_blocking_rounds, non_blocking_action}

swept-raised : (n i x w : ℕ) → raised_times 33 n i x (swept 0 i x w) ≡ raised_times 33 (suc n) i x w
swept-raised n i x w =
    let here : i + 0 ≡ i = omega arith in
    elim (Bool-cases (leb i x && ltb x (i + 33))) [
      | inl e ↦ rw (here, e) (next_sum w n (x - i))
      | inr e ↦ rw (here, e) refl
    ]

swept-lt : (i x w : ℕ) → w < 2 ^ 32 → swept 0 i x w < 2 ^ 32
swept-lt i x w h = elim (Bool-cases (leb (i + 0) x && ltb x (i + 33))) [
  | inl e ↦ rw e (omega arith)
  | inr e ↦ rw e h
]

module _ (master : NonBlockingMaster) (fuel k : ℕ) (free : master.m_lock ≡ false)
    (aligned : master.m_start_address % 4 ≡ 0) (small : master.m_start_address + 132 < 2 ^ 32)
    (enough : 1 < fuel) where
  abbrev start : ℕ
  start = master.m_start_address

  sweeps :
      (n : ℕ) (b : Bus FastMem) (m : FastMem)
      → IsValid b
      → Quiet b
      → Mounted b.slave_port k m
      → HoldsSweep m start
      → ((x : ℕ) → word_at m.mem x < 2 ^ 32)
      → (b' : Bus FastMem) × (m' : FastMem) × (non_blocking_rounds (n * 33) fuel master start 0 b
          ≡ returns (some b'))
        × IsValid b'
        × Quiet b'
        × Mounted b'.slave_port k m'
        × ((x : ℕ) → word_at m'.mem x ≡ raised_times 33 n (index_of m start) x (word_at m.mem x))
  sweeps zero b m v q mounted holds words = (
    b,
    m,
    unfold non_blocking_rounds in refl,
    v,
    q,
    mounted,
    λ x. none_raised 33 (index_of m start) x (word_at m.mem x) (words x),
  )
  sweeps (suc n) b m v q mounted holds words =
      let (m1, one, holds1, same, words1) =
        sweep_from master fuel k free aligned small enough 33 0 b m refl v q mounted holds in
      let i : ℕ = index_of m start in
      let (b', m', rest, v', q', mounted', words') =
        sweeps n one.after m1 one.valid one.quiet one.mounted holds1
          (λ x. rw (words1 x) (swept-lt i x (word_at m.mem x) (words x))) in
      let more : suc n * 33 ≡ 33 + n * 33 = omega arith in
      let first : start + 4 * 0 ≡ start = omega arith in
      let place : index_of m1 start ≡ i = rw same refl in
      (
        b',
        m',
        ap (λ j. non_blocking_rounds j fuel master start 0 b) more
            ∙ ap (λ a. non_blocking_rounds (33 + n * 33) fuel master a 0 b) (sym first)
            ∙ one.goes_on (n * 33)
            ∙ rest,
        v',
        q',
        mounted',
        λ x.
            words' x
            ∙ ap (λ j. raised_times 33 n j x (word_at m1.mem x)) place
            ∙ ap (raised_times 33 n i x) (words1 x)
            ∙ swept-raised n i x (word_at m.mem x),
      )

-- The non-blocking master without a lock, alone on a quiet and valid bus with a well-formed memory of
-- 32-bit words that holds the 132 bytes from its start address on, a multiple of 4 and those bytes below
-- the end of the address space, and asked for the status at most `fuel` times for each call, `fuel` above
-- 1: its first `wait()` and any number `n` of sweeps of its loop, of 33 rounds each, come to an end, and
-- leave the bus quiet and valid. To each of the 33 words its place in the sweep has been added `n` times,
-- modulo 2 ^ 32, and every other word of the memory is as before.
pub non_blocking_action-raised :
    (n fuel : ℕ) (master : NonBlockingMaster) (b : Bus FastMem) (k : ℕ) (m : FastMem)
    → master.m_lock ≡ false
    → IsValid b
    → Quiet b
    → Mounted b.slave_port k m
    → IsWellFormed m
    → ((x : ℕ) → word_at m.mem x < 2 ^ 32)
    → Holds m master.m_start_address
    → Holds m (master.m_start_address + 131)
    → master.m_start_address % 4 ≡ 0
    → master.m_start_address + 132 < 2 ^ 32
    → 1 < fuel
    → (b' : Bus FastMem) × (m' : FastMem) × (non_blocking_action (n * 33) fuel master b
        ≡ returns (some b'))
      × IsValid b'
      × Quiet b'
      × Mounted b'.slave_port k m'
      × ((x : ℕ)
          → word_at m'.mem x
            ≡ raised_times 33 n (index_of m master.m_start_address) x (word_at m.mem x))
unfolding non_blocking_action
non_blocking_action-raised n fuel master b k m free v q mounted well words first last aligned small
      enough =
    let waited = tick-Passed b k m q mounted in
    let holds : HoldsSweep m master.m_start_address = record {
      well = well;
      first = first;
      last = last;
    } in
    let (b', m', done, v', q', mounted', words') =
      sweeps master fuel k free aligned small enough n waited.after m (waited.valid v) waited.quiet
        waited.mounted holds words in
    (b', m', rw waited.computed done, v', q', mounted', words')

-- ===== src/Masters/Sweeps.antt =====
-- What the loop of the non-blocking master does to the memory of
-- simple_bus_headers/simple_bus_fast_mem.h: src/simple_bus_master_non_blocking.cpp. It sweeps over 33
-- words and starts again.
use simple_bus_mdu.Prelude.{
  ℕ, zero, suc, ◌+◌, ◌-◌, ◌*◌, ◌%◌, ◌^◌, ◌<◌, ◌≡◌, refl, ap, ◌∙◌, true, false, some, returns,
  word_at, word_at-set, set, length, length-set, ◌&&◌, ◌==◌, leb, ltb, if◌then◌else◌, arith,
  Bool-cases, inl, inr,
}
use simple_bus_mdu.Types.{u32}
use simple_bus_mdu.Bus.Forms.{Bus}
use simple_bus_mdu.Bus.Invariant.{IsValid}
use simple_bus_mdu.Bus.Quiet.{Quiet}
use simple_bus_mdu.Bus.Mounted.{Mounted}
use simple_bus_mdu.FastMem.{FastMem, index_of, fast_mem}
use simple_bus_mdu.FastMem.Laws.{IsWellFormed, Holds, index-lt}
use simple_bus_mdu.FastMem.Bursts.{index_of-word}
use simple_bus_mdu.Masters.BlockingRound.{tick-Passed}
use simple_bus_mdu.Masters.Repeated.{ticks-Passed}
use simple_bus_mdu.Masters.NonBlockingRound.{added_at, non_blocking_round-added}
use simple_bus_mdu.Masters.Rounds.{next_round, non_blocking_round}
use simple_bus_mdu.Masters.Loops.{NonBlockingMaster, non_blocking_rounds}

-- The address and the count of the round `c` of a sweep; the round 33 is the first again.
abbrev pub round_of : ℕ → ℕ → ℕ × ℕ
round_of start c = if c == 33 then (start, 0) else (start + 4 * c, c)

next_round-round_of :
    (start c : ℕ)
    → c < 33
    → start + 132 < 2 ^ 32
    → next_round start (start + 4 * c) c ≡ round_of start (suc c)
unfolding next_round
next_round-round_of start c h small = elim (Bool-cases (suc c == 33)) [
  | inl e ↦
      let past : ltb (u32 (start + 0x80)) (u32 (start + 4 * c + 4)) ≡ true = ground arith in
      rw (e, past) refl
  | inr e ↦
      let short : ltb (u32 (start + 0x80)) (u32 (start + 4 * c + 4)) ≡ false = ground arith in
      let a : u32 (start + 4 * c + 4) ≡ start + 4 * suc c = ground arith in
      let n : u32 (c + 1) ≡ suc c = ground arith in rw (e, short, a, n) refl
]

-- The loop has gone on by the rounds that `longer` adds.
pub record Reached (master : NonBlockingMaster) (fuel : ℕ) (longer : ℕ → ℕ) (from to : ℕ × ℕ)
    (b : Bus FastMem) (k : ℕ) (m : FastMem) : Type 0 where
  pub after : Bus FastMem
  pub goes_on :
      (n : ℕ)
      → non_blocking_rounds (longer n) fuel master from.0 from.1 b
        ≡ non_blocking_rounds n fuel master to.0 to.1 after
  pub valid : IsValid after
  pub quiet : Quiet after
  pub mounted : Mounted after.slave_port k m

-- The memory holds the 132 bytes of a sweep.
pub record HoldsSweep (m : FastMem) (start : ℕ) : Type 0 where
  pub well : IsWellFormed m
  pub first : Holds m start
  pub last : Holds m (start + 131)

added-HoldsSweep :
    (m : FastMem) (start a cnt : ℕ) → HoldsSweep m start → HoldsSweep (added_at m a cnt) start
added-HoldsSweep m start a cnt h = record {
  well = record {
    ordered = h.well.ordered;
    small = h.well.small;
    sized = omega (
      arith,
      h.well.sized,
      length-set m.mem (index_of m a) (u32 (word_at m.mem (index_of m a) + cnt)),
    );
  };
  first = h.first;
  last = h.last;
}

-- The word `w` of index `x` after the rounds from `c` on, for a sweep from the index `i` on.
abbrev pub swept : ℕ → ℕ → ℕ → ℕ → ℕ
swept c i x w = if leb (i + c) x && ltb x (i + 33) then u32 (w + (x - i)) else w

swept-added :
    (m : FastMem) (i c x : ℕ)
    → c < 33
    → i + c < length m.mem
    → swept (suc c) i x (word_at (set m.mem (i + c) (u32 (word_at m.mem (i + c) + c))) x)
      ≡ swept c i x (word_at m.mem x)
swept-added m i c x h inside =
    let now = word_at-set m.mem (i + c) x (u32 (word_at m.mem (i + c) + c)) inside in
    elim (Bool-cases (x == i + c)) [
      | inl e ↦
          let before : (leb (i + suc c) x && ltb x (i + 33)) ≡ false = ground arith in
          let after : (leb (i + c) x && ltb x (i + 33)) ≡ true = ground arith in
          let same : i + c ≡ x = ground arith in
          let place : c ≡ x - i = omega (arith, same) in
          rw (before, after, now, e)
            (ap (λ j. u32 (word_at m.mem j + c)) same ∙ ap (λ j. u32 (word_at m.mem x + j)) place)
      | inr e ↦
          rw (now, e)
            (ap
              (λ t.
                if t && ltb x (i + 33) then u32 (word_at m.mem x + (x - i)) else word_at m.mem x)
              (next_word e))
    ]
  where
    next_word : (x == i + c) ≡ false → leb (i + suc c) x ≡ leb (i + c) x
    next_word e = ground arith

module _ (master : NonBlockingMaster) (fuel k : ℕ) (free : master.m_lock ≡ false)
    (aligned : master.m_start_address % 4 ≡ 0) (small : master.m_start_address + 132 < 2 ^ 32)
    (enough : 1 < fuel) where
  abbrev start : ℕ
  start = master.m_start_address

  one_round :
      (c : ℕ) (b : Bus FastMem) (m : FastMem)
      → c < 33
      → IsValid b
      → Quiet b
      → Mounted b.slave_port k m
      → HoldsSweep m start
      → Reached master fuel suc
          (start + 4 * c, c)
          (round_of start (suc c))
          b
          k
          (added_at m (start + 4 * c) c)
  unfolding non_blocking_rounds
  one_round c b m h v q mounted holds =
      let a : ℕ = start + 4 * c in
      let (b1, round, v1, q1, mounted1) =
        non_blocking_round-added b k m master.m_unique_priority a c fuel v q mounted holds.well
          (omega (arith, holds.first), omega (arith, holds.last)) (omega arith) (omega arith)
          enough in
      let m1 : FastMem = added_at m a c in
      let made : non_blocking_round fuel b master.m_unique_priority a c master.m_lock
          ≡ returns (some b1) =
        ap (non_blocking_round fuel b master.m_unique_priority a c) free ∙ round in
      let waits = ticks-Passed (master.m_timeout - 1) b1 k m1 q1 mounted1 in
      let last = tick-Passed waits.after k m1 waits.quiet waits.mounted in
      record {
        after = last.after;
        goes_on = λ n.
            rw (made, waits.computed, last.computed)
              (ap (λ to. non_blocking_rounds n fuel master to.0 to.1 last.after)
                (next_round-round_of start c h small));
        valid = last.valid (waits.valid v1);
        quiet = last.quiet;
        mounted = last.mounted;
      }

  left_zero : (n : ℕ) → 0 + n ≡ n
  left_zero n = omega arith

  -- The rounds of a sweep from the round `c` on.
  pub sweep_from :
      (d c : ℕ) (b : Bus FastMem) (m : FastMem)
      → c + d ≡ 33
      → IsValid b
      → Quiet b
      → Mounted b.slave_port k m
      → HoldsSweep m start
      → (m' : FastMem) × Reached master fuel (λ n. d + n) (round_of start c) (start, 0) b k m'
        × HoldsSweep m' start
        × (m'.m_start_address ≡ m.m_start_address)
        × ((x : ℕ) → word_at m'.mem x ≡ swept c (index_of m start) x (word_at m.mem x))
  sweep_from zero c b m e v q mounted holds =
      let back : round_of start c ≡ (start, 0) =
        let end : (c == 33) ≡ true = ground arith in rw end refl in
      (
        m,
        record {
          after = b;
          goes_on = λ n.
              ap
                (λ j. non_blocking_rounds j fuel master (round_of start c).0 (round_of start c).1 b)
                (left_zero n)
              ∙ ap (λ from. non_blocking_rounds n fuel master from.0 from.1 b) back;
          valid = v;
          quiet = q;
          mounted = mounted;
        },
        holds,
        refl,
        λ x.
            let past : (leb (index_of m start + c) x && ltb x (index_of m start + 33)) ≡ false =
              ground arith in
            rw past refl,
      )
  sweep_from (suc d) c b m e v q mounted holds =
      let i : ℕ = index_of m start in
      let m1 : FastMem = added_at m (start + 4 * c) c in
      let one = one_round c b m (omega arith) v q mounted holds in
      let (m', rest, holds', same, words) =
        sweep_from d (suc c) one.after m1 (omega arith) one.valid one.quiet one.mounted
          (added-HoldsSweep m start (start + 4 * c) c holds) in
      let here : round_of start c ≡ (start + 4 * c, c) =
        let other : (c == 33) ≡ false = ground arith in rw other refl in
      let place : index_of m (start + 4 * c) ≡ i + c =
        index_of-word m start 32 c holds.well holds.first
          (omega (arith, holds.first), omega (arith, holds.last)) (omega arith) in
      let inside : i + c < length m.mem = rw place at (
        index-lt m (start + 4 * c) holds.well
          (omega (arith, holds.first), omega (arith, holds.last))) in
      (
        m',
        record {
          after = rest.after;
          goes_on = λ n.
              let more : suc d + n ≡ suc (d + n) = omega arith in
              ap
                (λ j. non_blocking_rounds j fuel master (round_of start c).0 (round_of start c).1 b)
                more
              ∙ ap (λ from. non_blocking_rounds (suc (d + n)) fuel master from.0 from.1 b) here
              ∙ one.goes_on (d + n)
              ∙ rest.goes_on n;
          valid = rest.valid;
          quiet = rest.quiet;
          mounted = rest.mounted;
        },
        holds',
        same,
        λ x.
            words x
            ∙ ap (λ j. swept (suc c) i x (word_at (set m.mem j (u32 (word_at m.mem j + c))) x))
                place
            ∙ swept-added m i c x (omega arith) inside,
      )

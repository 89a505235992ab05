-- ===== src/Masters/BlockingRound.antt =====
-- What a round of the blocking master of the bus does to the memory of
-- simple_bus_headers/simple_bus_fast_mem.h: src/simple_bus_master_blocking.cpp.
use simple_bus_mdu.Prelude.{
  ℕ, zero, suc, ◌+◌, ◌-◌, ◌%◌, ◌^◌, ◌≤◌, ◌<◌, ◌≡◌, refl, ap, sym, subst, map, ◌∙◌, true, false,
  none, some, Outcome, returns, word_at, length, ◌&&◌, leb, ltb, if◌then◌else◌, arith, Bool-cases,
  inl, inr,
}
use simple_bus_mdu.Types.{u32}
use simple_bus_mdu.Bus.Forms.{Bus, update, clear_locks, get_next_request, unlock}
use simple_bus_mdu.Bus.Service.{main_action}
use simple_bus_mdu.Bus.Sole.{NonePending-pending, NonePending-unlock, NoLocks-unlock}
use simple_bus_mdu.Bus.Requests.{Unique-unlock}
use simple_bus_mdu.Bus.Invariant.{pick-none, IsValid, IsWaiting}
use simple_bus_mdu.Bus.Action.{handle-none, clear_if-none}
use simple_bus_mdu.Bus.Quiet.{Quiet}
use simple_bus_mdu.Bus.Mounted.{Mounted, Mounted-posedge}
use simple_bus_mdu.Bus.Blocking.{posedge}
use simple_bus_mdu.FastMem.{FastMem, index_of, fast_mem}
use simple_bus_mdu.FastMem.Laws.{IsWellFormed, Holds, index-lt, fast_mem-KeepsRange}
use simple_bus_mdu.FastMem.Bursts.{words_from, index_of-word, burst_read-words}
use simple_bus_mdu.FastMem.BurstWrites.{
  written, written-word_at, written-IsWellFormed, written-range, burst_write-words,
}
use simple_bus_mdu.Masters.Rounds.{tick, add_indices, blocking_round}

-- A quiet bus stays so, and valid where it was, with the same slave and the given cells.
pub record Passed (b : Bus FastMem) (k : ℕ) (m : FastMem) (call : Outcome (Bus FastMem))
    (cells : ℕ → ℕ) : Type 0 where
  pub after : Bus FastMem
  pub computed : call ≡ returns after
  pub quiet : Quiet after
  pub mounted : Mounted after.slave_port k m
  pub stored : (j : ℕ) → after.cells j ≡ cells j
  pub valid : IsValid b → IsValid after

main_action-Quiet : (b : Bus FastMem) → Quiet b → main_action b ≡ returns (clear_locks b, none)
unfolding main_action get_next_request
main_action-Quiet b q =
    let empty = NonePending-pending 0 b.requests q.none_pending in
    let next : get_next_request b ≡ returns b = rw (empty, get_next_request) refl in
    rw (pick-none b q.current ∙ next, handle-none b q.current, clear_if-none b none q.current) refl

pub tick-Passed :
    (b : Bus FastMem) (k : ℕ) (m : FastMem)
    → Quiet b
    → Mounted b.slave_port k m
    → Passed b k m (tick b) b.cells
unfolding tick clear_locks
tick-Passed b k m q mounted = record {
  after = posedge (clear_locks b);
  computed = rw (main_action-Quiet b q) refl;
  quiet = record {
    current = q.current;
    none_pending = NonePending-unlock b.requests q.none_pending;
    no_locks = NoLocks-unlock b.requests q.no_locks;
  };
  mounted = Mounted-posedge fast_mem-KeepsRange b.slave_port k mounted;
  stored = λ j. refl;
  valid = λ v. record {
    unique = Unique-unlock b.requests v.unique;
    waiting = subst (IsWaiting (map unlock b.requests)) (sym q.current) tt;
  };
}

-- The cells after the loop that adds to each of `n` cells, from `i` on, its index.
abbrev pub indices_added : ℕ → ℕ → (ℕ → ℕ) → ℕ → ℕ
indices_added n i cells j = if leb i j && ltb j (i + n) then u32 (cells j + j) else cells j

at_index : (cells : ℕ → ℕ) (i j : ℕ) → j ≡ i → u32 (cells i + i) ≡ u32 (cells j + j)
at_index cells i j e = rw e refl

indices_added-suc :
    (n i : ℕ) (cells : ℕ → ℕ) (j : ℕ)
    → indices_added n (suc i) (update cells i (u32 (cells i + i))) j
      ≡ indices_added (suc n) i cells j
indices_added-suc n i cells j = ground (arith, at_index cells i j)

add_indices-Passed :
    (n i : ℕ) (b : Bus FastMem) (k : ℕ) (m : FastMem)
    → Quiet b
    → Mounted b.slave_port k m
    → Passed b k m (add_indices n i b) (indices_added n i b.cells)
unfolding add_indices
add_indices-Passed zero i b k m q mounted = record {
  after = b;
  computed = refl;
  quiet = q;
  mounted = mounted;
  stored = λ j. ground arith;
  valid = λ v. v;
}
add_indices-Passed (suc n) i b k m q mounted =
    let b0 : Bus FastMem = record b { cells = update b.cells i (u32 (b.cells i + i)) } in
    let q0 : Quiet b0 = record {
      current = q.current;
      none_pending = q.none_pending;
      no_locks = q.no_locks;
    } in
    let one = tick-Passed b0 k m q0 mounted in
    let rest = add_indices-Passed n (suc i) one.after k m one.quiet one.mounted in
    record {
      after = rest.after;
      computed = rw one.computed rest.computed;
      quiet = rest.quiet;
      mounted = rest.mounted;
      stored = λ j.
          rest.stored j
          ∙ ap (λ x. if leb (suc i) j && ltb j (suc i + n) then u32 (x + j) else x) (one.stored j)
          ∙ indices_added-suc n i b.cells j;
      valid = λ v. rest.valid (one.valid (record { unique = v.unique; waiting = v.waiting }));
    }

-- The word of index `x` once a round is over, for a burst from the index `i` on.
abbrev pub raised : FastMem → ℕ → ℕ → ℕ
raised m i x =
    if leb i x && ltb x (i + 16) then u32 (word_at m.mem x + (x - i)) else word_at m.mem x

fits :
    (m : FastMem) (a : ℕ)
    → IsWellFormed m
    → Holds m a
    → Holds m (a + 63)
    → index_of m a + 16 ≤ length m.mem
fits m a v first last = omega (
  arith,
  index-lt m (a + 60) v (omega (arith, first, last)),
  index_of-word m a 15 15 v first (omega (arith, first, last)) (omega arith),
)

-- What the buffer holds when it is written back.
buffer :
    (m : FastMem) (a : ℕ) (read_in before added : ℕ → ℕ)
    → ((j : ℕ)
        → read_in j ≡ (if leb 0 j && ltb j (0 + 16) then words_from m a (j - 0) else before j))
    → ((j : ℕ) → added j ≡ indices_added 16 0 read_in j)
    → (y : ℕ) → y < 16
    → added (0 + y) ≡ u32 (words_from m a y + y)
buffer m a read_in before added r s y h =
    let whole : (leb 0 y && ltb y 16) ≡ true = ground arith in
    let same : added (0 + y) ≡ added y = ap added (omega arith) in
    let word : read_in y ≡ words_from m a y =
      rw whole at (r y) ∙ ap (words_from m a) (omega arith) in
    same ∙ s y ∙ rw whole (ap (λ w. u32 (w + y)) word)

raised_words :
    (m : FastMem) (a : ℕ) (content : ℕ → ℕ)
    → ((y : ℕ) → y < 16 → content y ≡ u32 (words_from m a y + y))
    → (x : ℕ)
    → (if leb (index_of m a) x && ltb x (index_of m a + 16)
        then content (x - index_of m a)
        else word_at m.mem x)
      ≡ raised m (index_of m a) x
raised_words m a content h x =
    let i : ℕ = index_of m a in
    elim (Bool-cases (leb (index_of m a) x && ltb x (index_of m a + 16))) [
      | inr e ↦ rw e refl
      | inl e ↦
          let back : index_of m a + (x - index_of m a) ≡ x = ground arith in
          rw e (
            h (x - index_of m a) (ground arith)
            ∙ ap (λ j. u32 (word_at m.mem j + (x - index_of m a))) back)
    ]

-- A round of the blocking master without a lock, on a quiet bus with a well-formed memory that holds the
-- 64 bytes from its address on, a multiple of 4 below the end of the address space, given more than 15
-- cycles for each burst: it comes to an end, with the bus quiet, and has added to each of the 16 words its
-- index in the burst, modulo 2 ^ 32. Every other word of the memory is as before.
pub blocking_round-raised :
    (b : Bus FastMem) (k : ℕ) (m : FastMem) (p a fuel : ℕ)
    → Quiet b
    → Mounted b.slave_port k m
    → IsWellFormed m
    → Holds m a
    → Holds m (a + 63)
    → a % 4 ≡ 0
    → a + 64 < 2 ^ 32
    → 15 < fuel
    → (b' : Bus FastMem) × (m' : FastMem) × (blocking_round fuel b p a false ≡ returns (some b'))
      × Quiet b'
      × Mounted b'.slave_port k m'
      × IsWellFormed m'
      × (m'.m_start_address ≡ m.m_start_address)
      × (m'.m_end_address ≡ m.m_end_address)
      × ((x : ℕ) → word_at m'.mem x ≡ raised m (index_of m a) x)
unfolding blocking_round
blocking_round-raised b k m p a fuel q mounted v first last aligned small enough =
    let t = tick-Passed b k m q mounted in
    let (b1, got, q1, mounted1, cells1) =
      burst_read-words t.after k m p 0 a 15 fuel t.quiet t.mounted v first (omega (arith, last))
        aligned (omega arith) enough in
    let added = add_indices-Passed 16 0 b1 k m q1 mounted1 in
    let (b3, put, q3, mounted3, cells3) =
      burst_write-words added.after k m p 0 a 15 fuel added.quiet added.mounted v first
        (omega (arith, last)) aligned (omega arith) enough in
    let content : ℕ → ℕ = λ j. added.after.cells (0 + j) in
    let i : ℕ = index_of m a in
    (
      b3,
      written m i content 16,
      rw (t.computed, got, added.computed, put) refl,
      q3,
      mounted3,
      written-IsWellFormed m i content 16 v,
      (written-range m i content 16).0,
      (written-range m i content 16).1,
      λ x.
          written-word_at m i content 16 x (fits m a v first last)
          ∙ raised_words m a content
              (buffer m a b1.cells t.after.cells added.after.cells cells1 added.stored) x,
    )

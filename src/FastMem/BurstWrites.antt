-- ===== src/FastMem/BurstWrites.antt =====
-- A burst write to the memory that answers at once: simple_bus_headers/simple_bus_fast_mem.h behind
-- src/simple_bus.cpp.
use simple_bus_mdu.Prelude.{
  word_at, word_at-set, ℕ, zero, suc, ◌+◌, ◌-◌, ◌*◌, ◌%◌, ◌^◌, ◌≤◌, ◌<◌, ◌≡◌, refl, ap, ◌∙◌, false,
  true, some, returns, set, length, length-set, get_elem?-some, get_elem?, ◌&&◌, leb, ltb, arith,
  if◌then◌else◌,
}
use simple_bus_mdu.Types.{ok}
use simple_bus_mdu.Bus.Forms.{Bus, burst}
use simple_bus_mdu.Bus.Mounted.{Mounted}
use simple_bus_mdu.Bus.Blocking.{blocking}
use simple_bus_mdu.Bus.Quiet.{Quiet, Resting-Quiet, asked, burst-Serving}
use simple_bus_mdu.Bus.Transactions.{status_of-some}
use simple_bus_mdu.Bus.Bursts.{last_address-suc}
use simple_bus_mdu.Bus.BurstWrites.{WritesAtOnce, burst_write_ends}
use simple_bus_mdu.FastMem.{FastMem, index_of, write, fast_mem}
use simple_bus_mdu.FastMem.Bursts.{index_of-word}
use simple_bus_mdu.FastMem.Laws.{IsWellFormed, Holds, index-lt, fast_mem-KeepsRange}

-- The memory with the words `content 0`, `content 1`, …, `n` of them, stored from the index `i` on.
abbrev pub written : FastMem → ℕ → (ℕ → ℕ) → ℕ → FastMem
written m i content zero = m
written m i content (suc n) = record (written m i content n) {
  mem = set (written m i content n).mem (i + n) (content n);
}

written-length :
    (m : FastMem) (i : ℕ) (content : ℕ → ℕ) (n : ℕ)
    → length (written m i content n).mem ≡ length m.mem
written-length m i content zero = refl
written-length m i content (suc n) =
    length-set (written m i content n).mem (i + n) (content n) ∙ written-length m i content n

pub written-range :
    (m : FastMem) (i : ℕ) (content : ℕ → ℕ) (n : ℕ)
    → ((written m i content n).m_start_address ≡ m.m_start_address)
      × ((written m i content n).m_end_address ≡ m.m_end_address)
written-range m i content zero = (refl, refl)
written-range m i content (suc n) = written-range m i content n

pub written-IsWellFormed :
    (m : FastMem) (i : ℕ) (content : ℕ → ℕ) (n : ℕ)
    → IsWellFormed m
    → IsWellFormed (written m i content n)
written-IsWellFormed m i content n v =
    let (first, last) = written-range m i content n in
    record {
      ordered = omega (arith, v.ordered, first, last);
      small = omega (arith, v.small, last);
      sized = omega (arith, v.sized, first, last, written-length m i content n);
    }

-- They stand there in order, and every other word is as before.
content_last : (content : ℕ → ℕ) (i n x : ℕ) → x ≡ i + n → content (x - i) ≡ content n
content_last content i n x e = ap content (omega arith)

-- They stand there in order, and every other word is as before.
pub written-word_at :
    (m : FastMem) (i : ℕ) (content : ℕ → ℕ) (n x : ℕ)
    → i + n ≤ length m.mem
    → word_at (written m i content n).mem x
      ≡ (if leb i x && ltb x (i + n) then content (x - i) else word_at m.mem x)
written-word_at m i content zero x h = ground arith
written-word_at m i content (suc n) x h =
    let before = written-word_at m i content n x (omega arith) in
    let now =
      word_at-set (written m i content n).mem (i + n) x (content n)
        (omega (arith, written-length m i content n)) in
    ground (arith, before, now, content_last content i n x)

pub write-at :
    (t : FastMem) (d a i : ℕ)
    → index_of t a ≡ i
    → i < length t.mem
    → write t d a ≡ returns (ok, record t { mem = set t.mem i d })
unfolding write
write-at t d a i e h =
    let (w, found) = get_elem?-some t.mem i h in
    let there : get_elem? t.mem (index_of t a) ≡ some w = ap (get_elem? t.mem) e ∙ found in
    rw (there, write) (ap (λ x. returns (ok, record t { mem = set t.mem x d })) e)

write-written :
    (m : FastMem) (a n j : ℕ) (content : ℕ → ℕ)
    → IsWellFormed m
    → Holds m a
    → Holds m (a + 4 * n)
    → j ≤ n
    → write (written m (index_of m a) content j) (content j) (a + 4 * j)
      ≡ returns (ok, written m (index_of m a) content (suc j))
write-written m a n j content v first last h =
    let t : FastMem = written m (index_of m a) content j in
    let (s, f) = written-range m (index_of m a) content j in
    let place : index_of m (a + 4 * j) ≡ index_of m a + j = index_of-word m a n j v first last h in
    let same : index_of t (a + 4 * j) ≡ index_of m a + j = rw s place in
    let inside : index_of m (a + 4 * j) < length m.mem =
      index-lt m (a + 4 * j) v (omega (arith, first, last)) in
    write-at t (content j) (a + 4 * j) (index_of m a + j) same
      (omega (arith, written-length m (index_of m a) content j, inside, place))

writes_at_once :
    (m : FastMem) (a at n : ℕ) (cells : ℕ → ℕ)
    → IsWellFormed m
    → Holds m a
    → Holds m (a + 4 * n)
    → WritesAtOnce fast_mem (written m (index_of m a) (λ j. cells (at + j))) a at n cells
writes_at_once m a at n cells v first last = record {
  hits = λ j h.
      let (s, f) = written-range m (index_of m a) (λ j. cells (at + j)) j in
      rw (s, f) (ground (arith, first, last));
  takes = λ j h. write-written m a n j (λ j. cells (at + j)) v first last h;
  still = λ j. refl;
  range = λ j. (refl, refl);
}

-- A burst write of `n + 1` words to a well-formed memory that holds them, at a word aligned address below
-- the end of the address space and on a quiet bus, comes back with OK given more than `n` cycles. The
-- memory then holds the words of the master's buffer, in order, and every cell is as before.
pub burst_write-words :
    (b : Bus FastMem) (k : ℕ) (m : FastMem) (p at a n fuel : ℕ)
    → Quiet b
    → Mounted b.slave_port k m
    → IsWellFormed m
    → Holds m a
    → Holds m (a + 4 * n + 3)
    → a % 4 ≡ 0
    → a + 4 * n + 4 < 2 ^ 32
    → n < fuel
    → (b' : Bus FastMem) × (blocking true fuel b p at a (suc n) false ≡ returns (some (ok, b')))
      × Quiet b'
      × Mounted b'.slave_port k (written m (index_of m a) (λ j. b.cells (at + j)) (suc n))
      × (b'.cells ≡ b.cells)
burst_write-words b k m p at a n fuel quiet mounted well first last aligned small enough =
    let (i, b0) = burst true b p at a (suc n) false in
    let (serving, slaves, cells) = burst-Serving true b p at a (suc n) quiet in
    let done =
      burst_write_ends fast_mem-KeepsRange i k n fuel a
        (written m (index_of m a) (λ j. b.cells (at + j))) b0 (asked true p at a (suc n)) serving
        refl refl (last_address-suc a n small) small (ground arith)
        (rw cells (writes_at_once m a at n b.cells well first (omega arith))) (rw slaves mounted)
        enough in
    (
      done.after,
      unfold blocking in
          rw (done.computed, status_of-some i done.after done.resting.at)
            (ap (λ st. returns (some (st, done.after))) done.done),
      Resting-Quiet done.after i done.resting (ground (arith, done.done)),
      done.mounted,
      done.kept ∙ cells,
    )

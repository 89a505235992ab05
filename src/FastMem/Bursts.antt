-- ===== src/FastMem/Bursts.antt =====
-- A burst read of the memory that answers at once: simple_bus_headers/simple_bus_fast_mem.h behind
-- src/simple_bus.cpp.
use simple_bus_mdu.Prelude.{
  word_at, ℕ, suc, ◌+◌, ◌-◌, ◌*◌, ◌%◌, ◌^◌, ◌≤◌, ◌<◌, ◌≡◌, refl, ap, ◌∙◌, false, some, returns,
  ◌&&◌, leb, ltb, arith, if◌then◌else◌,
}
use simple_bus_mdu.Types.{ok}
use simple_bus_mdu.Bus.Forms.{Bus, burst}
use simple_bus_mdu.Bus.Mounted.{Mounted}
use simple_bus_mdu.Bus.Blocking.{blocking}
use simple_bus_mdu.Bus.Quiet.{Quiet, Resting-Quiet, asked, burst-Serving}
use simple_bus_mdu.Bus.Transactions.{status_of-some}
use simple_bus_mdu.Bus.Bursts.{ReadsAtOnce, burst_ends, fill_cells_lem, last_address-suc}
use simple_bus_mdu.FastMem.{FastMem, index_of, fast_mem}
use simple_bus_mdu.FastMem.Laws.{read-word_at, IsWellFormed, Holds, fast_mem-KeepsRange}

-- The words that a burst from the address `a` on reads.
abbrev pub words_from : FastMem → ℕ → ℕ → ℕ
words_from m a j = word_at m.mem (index_of m a + j)

pub index_of-word :
    (m : FastMem) (a n j : ℕ)
    → IsWellFormed m
    → Holds m a
    → Holds m (a + 4 * n)
    → j ≤ n
    → index_of m (a + 4 * j) ≡ index_of m a + j
index_of-word m a n j well first last h = omega arith

reads_at_once :
    (m : FastMem) (a n : ℕ)
    → IsWellFormed m
    → Holds m a
    → Holds m (a + 4 * n)
    → ReadsAtOnce m a n (words_from m a)
reads_at_once m a n well first last j d h =
    let inside : Holds m (a + 4 * j) = omega arith in
    (
      ground arith,
      read-word_at m d (a + 4 * j) well inside
          ∙ ap (λ x. returns (ok, word_at m.mem x, m)) (index_of-word m a n j well first last h),
    )

-- A burst of `n + 1` words from a well-formed memory that holds them, at a word aligned address below
-- the end of the address space and on a quiet bus, comes back with OK given more than `n` cycles.
-- Each cell of the master's buffer then holds its word, and every other cell is as before.
pub burst_read-words :
    (b : Bus FastMem) (k : ℕ) (m : FastMem) (p at a n fuel : ℕ)
    → Quiet b
    → Mounted b.slave_port k m
    → IsWellFormed m
    → Holds m a
    → Holds m (a + 4 * n + 3)
    → a % 4 ≡ 0
    → a + 4 * n + 4 < 2 ^ 32
    → n < fuel
    → (b' : Bus FastMem) × (blocking false fuel b p at a (suc n) false ≡ returns (some (ok, b')))
      × Quiet b'
      × Mounted b'.slave_port k m
      × ((j : ℕ)
          → b'.cells j
            ≡ (if leb at j && ltb j (at + suc n) then words_from m a (j - at) else b.cells j))
burst_read-words b k m p at a n fuel quiet mounted well first last aligned small enough =
    let (i, b0) = burst false b p at a (suc n) false in
    let (serving, slaves, cells) = burst-Serving false b p at a (suc n) quiet in
    let done =
      burst_ends fast_mem-KeepsRange i k m refl n fuel a (words_from m a) b0
        (asked false p at a (suc n)) serving refl refl (last_address-suc a n small) small
        (ground arith) (reads_at_once m a n well first (omega arith)) (rw slaves mounted) enough in
    (
      done.after,
      unfold blocking in
          rw (done.computed, status_of-some i done.after done.resting.at)
            (ap (λ st. returns (some (st, done.after))) done.done),
      Resting-Quiet done.after i done.resting (ground (arith, done.done)),
      done.mounted,
      λ j.
          ap (λ (f : ℕ → ℕ). f j) done.stored
          ∙ fill_cells_lem (suc n) at (words_from m a) b0.cells j
          ∙ ap
              (λ (f : ℕ → ℕ).
                if leb at j && ltb j (at + suc n) then words_from m a (j - at) else f j)
              cells,
    )

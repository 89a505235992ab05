-- ===== src/Bus/Bursts.antt =====
-- A burst that reads several words from a slave that answers at once: src/simple_bus.cpp,
-- burst_read and handle_request.
use simple_bus_mdu.Prelude.{
  ℕ, zero, suc, ◌+◌, ◌-◌, ◌*◌, ◌%◌, ◌^◌, ◌≤◌, ◌<◌, ◌≡◌, refl, ap, ◌∙◌, true, false, some, returns,
  set, ◌==◌, ltb, leb, ◌&&◌, arith, if◌then◌else◌,
}
use simple_bus_mdu.Types.{Request, ok, wait, SlaveIf, KeepsRange}
use simple_bus_mdu.Bus.Forms.{Bus, update, last_address}
use simple_bus_mdu.Bus.Slaves.{answers}
use simple_bus_mdu.Bus.Sole.{Serving, Resting}
use simple_bus_mdu.Bus.Edge.{edge-last, edge-more, next_word}
use simple_bus_mdu.Bus.Mounted.{Mounted, Mounted-set, Mounted-found, Mounted-posedge}
use simple_bus_mdu.Bus.Blocking.{posedge, await}
use simple_bus_mdu.Bus.Timing.{await-on, await-woken, Serving-posedge, Resting-posedge, read_called}

-- The memory after the words `content 0`, `content 1`, … have been stored from the cell `at` on.
abbrev pub fill_cells : ℕ → ℕ → (ℕ → ℕ) → (ℕ → ℕ) → ℕ → ℕ
fill_cells zero at content cells = cells
fill_cells (suc n) at content cells =
    fill_cells n (suc at) (λ j. content (suc j)) (update cells at (content 0))

content_later :
    (content : ℕ → ℕ) (j at : ℕ) → at < j → content (suc (j - suc at)) ≡ content (j - at)
content_later content j at h = ap content (omega arith)

content_first : (content : ℕ → ℕ) (j at : ℕ) → j ≡ at → content (j - at) ≡ content 0
content_first content j at h = ap content (omega arith)

-- They stand there in order, and no other cell changes.
pub fill_cells_lem :
    (n at : ℕ) (content cells : ℕ → ℕ) (j : ℕ)
    → fill_cells n at content cells j
      ≡ (if leb at j && ltb j (at + n) then content (j - at) else cells j)
fill_cells_lem zero at content cells j = ground arith
fill_cells_lem (suc n) at content cells j = ground (
  arith,
  fill_cells_lem n (suc at) (λ (m : ℕ). content (suc m)) (update cells at (content 0)) j,
  content_later content j at,
  content_first content j at,
)

pub last_address-suc : (a n : ℕ) → a + 4 * n + 4 < 2 ^ 32 → last_address a (suc n) ≡ a + 4 * n
last_address-suc a n h = omega arith

module _ {S : Type 0} ⦃slave_if : SlaveIf S⦄ where
  -- The slave reads the words of the addresses `a`, `a + 4`, … at once, and does not change.
  abbrev pub ReadsAtOnce : S → ℕ → ℕ → (ℕ → ℕ) → Type 0
  ReadsAtOnce s a n content =
      (j d : ℕ)
      → j ≤ n
      → (answers s (a + 4 * j) ≡ true)
        × (slave_if.read s d (a + 4 * j) ≡ returns (ok, content j, s))

module _ {S : Type 0} ⦃slave_if : SlaveIf S⦄ (keeps : KeepsRange slave_if) (i k : ℕ) (s : S)
    (still : slave_if.posedge s ≡ s) where
  first_word :
      (a n : ℕ) (content : ℕ → ℕ) (d : ℕ)
      → ReadsAtOnce s a n content
      → (answers s a ≡ true) × (slave_if.read s d a ≡ returns (ok, content 0, s))
  first_word a n content d reads =
      let here : a + 4 * 0 ≡ a = omega arith in rw here at (reads 0 d (omega arith))

  later_words :
      (a n : ℕ) (content : ℕ → ℕ)
      → ReadsAtOnce s a (suc n) content
      → ReadsAtOnce s (a + 4) n (λ j. content (suc j))
  later_words a n content reads j d h =
      let there : a + 4 * suc j ≡ a + 4 + 4 * j = omega arith in
      rw there at (reads (suc j) d (omega arith))

  -- The burst has come back.
  pub record BurstRead (fuel : ℕ) (b : Bus S) (cells : ℕ → ℕ) : Type 0 where
    pub after : Bus S
    pub last : Request
    pub computed : await fuel i b ≡ returns (some after)
    pub resting : Resting after i last
    pub done : last.status ≡ ok
    pub mounted : Mounted after.slave_port k s
    pub stored : after.cells ≡ cells

  same-Mounted :
      (b b' : Bus S)
      → Mounted b.slave_port k s
      → b'.slave_port ≡ set b.slave_port k s
      → Mounted (posedge b').slave_port k s
  same-Mounted b b' m e =
      let there : Mounted b'.slave_port k s =
        rw e (Mounted-set b.slave_port k s s m (refl, refl)) in
      rw still at (Mounted-posedge keeps b'.slave_port k there)

  -- A burst of `n + 1` words takes `n + 1` cycles and copies the slave's words, in order, to the
  -- cells from the master's pointer on.
  pub burst_ends :
      (n fuel a : ℕ) (content : ℕ → ℕ) (b : Bus S) (r : Request)
      → Serving b i r
      → r.do_write ≡ false
      → r.address ≡ a
      → r.end_address ≡ a + 4 * n
      → a + 4 * n + 4 < 2 ^ 32
      → (a % 4 == 0) ≡ true
      → ReadsAtOnce s a n content
      → Mounted b.slave_port k s
      → n < fuel
      → BurstRead fuel b (fill_cells (suc n) r.data_at content b.cells)
  burst_ends n zero a content b r v w at last small aligned reads mounted h = elim h [ ]
  burst_ends zero (suc fuel) a content b r v w at last small aligned reads mounted h =
      let (hit, answer) = first_word a 0 content (b.cells r.data_at) reads in
      let called = read_called b r k s s ok (content 0) w (rw at answer) in
      let (b', acted, rest, slaves, cells) =
        edge-last b i r k s (set b.slave_port k s) (update b.cells r.data_at (content 0)) v
          (rw at aligned) (rw at (Mounted-found b.slave_port k a mounted hit)) called
          (omega (arith, at, last)) in
      record {
        after = posedge b';
        last = next_word r ok;
        computed = await-woken fuel i b acted;
        resting = Resting-posedge b' i rest;
        done = refl;
        mounted = same-Mounted b b' mounted slaves;
        stored = cells;
      }
  burst_ends (suc n) (suc fuel) a content b r v w at last small aligned reads mounted h =
      let (hit, answer) = first_word a (suc n) content (b.cells r.data_at) reads in
      let called = read_called b r k s s ok (content 0) w (rw at answer) in
      let (b', acted, serving, slaves, cells) =
        edge-more b i r k s (set b.slave_port k s) (update b.cells r.data_at (content 0)) v
          (rw at aligned) (rw at (Mounted-found b.slave_port k a mounted hit)) called
          (omega (arith, at, last)) in
      let rest =
        burst_ends n fuel (a + 4) (λ j. content (suc j)) (posedge b') (next_word r wait)
          (Serving-posedge b' i serving) w (omega (arith, at)) (omega (arith, last)) (omega arith)
          (ground arith) (later_words a n content reads) (same-Mounted b b' mounted slaves)
          (omega arith) in
      record {
        after = rest.after;
        last = rest.last;
        computed = await-on fuel i b acted ∙ rest.computed;
        resting = rest.resting;
        done = rest.done;
        mounted = rest.mounted;
        stored =
            rest.stored
            ∙ ap (λ c. fill_cells (suc n) (suc r.data_at) (λ j. content (suc j)) c) cells;
      }

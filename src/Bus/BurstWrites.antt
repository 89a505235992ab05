-- ===== src/Bus/BurstWrites.antt =====
-- A burst that writes several words to a slave that takes them at once: src/simple_bus.cpp, burst_write
-- and handle_request.
use simple_bus_mdu.Prelude.{
  ℕ, zero, suc, ◌+◌, ◌*◌, ◌%◌, ◌^◌, ◌≤◌, ◌<◌, ◌≡◌, refl, ◌∙◌, true, some, returns, set, ◌==◌, arith,
}
use simple_bus_mdu.Types.{Request, ok, wait, SlaveIf, KeepsRange}
use simple_bus_mdu.Bus.Forms.{Bus}
use simple_bus_mdu.Bus.Slaves.{answers}
use simple_bus_mdu.Bus.Service.{call_slave}
use simple_bus_mdu.Bus.Sole.{Serving, Resting}
use simple_bus_mdu.Bus.Edge.{edge-last, edge-more, next_word}
use simple_bus_mdu.Bus.Mounted.{SameRange, Mounted, Mounted-set, Mounted-found, Mounted-posedge}
use simple_bus_mdu.Bus.Blocking.{posedge, await}
use simple_bus_mdu.Bus.Timing.{
  await-on, await-woken, Serving-posedge, Resting-posedge, write_called,
}

-- The slave, which is `state j` after `j` words, takes the words of the cells from `at` on at once.
pub record WritesAtOnce {S : Type 0} (slave_if : SlaveIf S) (state : ℕ → S) (a at n : ℕ)
    (cells : ℕ → ℕ) : Type 0 where
  pub hits : (j : ℕ) → j ≤ n → answers ⦃slave_if = slave_if⦄ (state j) (a + 4 * j) ≡ true
  pub takes :
      (j : ℕ)
      → j ≤ n
      → slave_if.write (state j) (cells (at + j)) (a + 4 * j) ≡ returns (ok, state (suc j))
  pub still : (j : ℕ) → slave_if.posedge (state j) ≡ state j
  pub range : (j : ℕ) → SameRange ⦃slave_if = slave_if⦄ (state j) (state (suc j))

module _ {S : Type 0} ⦃slave_if : SlaveIf S⦄ (keeps : KeepsRange slave_if) (i k : ℕ) where
  -- The burst has come back.
  pub record BurstWritten (fuel : ℕ) (b : Bus S) (s : S) : Type 0 where
    pub after : Bus S
    pub last : Request
    pub computed : await fuel i b ≡ returns (some after)
    pub resting : Resting after i last
    pub done : last.status ≡ ok
    pub mounted : Mounted after.slave_port k s
    pub kept : after.cells ≡ b.cells

  next-Mounted :
      (b b' : Bus S) (s s' : S)
      → Mounted b.slave_port k s
      → SameRange s s'
      → slave_if.posedge s' ≡ s'
      → b'.slave_port ≡ set b.slave_port k s'
      → Mounted (posedge b').slave_port k s'
  next-Mounted b b' s s' m same still e =
      let there : Mounted b'.slave_port k s' = rw e (Mounted-set b.slave_port k s s' m same) in
      rw still at (Mounted-posedge keeps b'.slave_port k there)

  later_writes :
      (state : ℕ → S) (a at n : ℕ) (cells : ℕ → ℕ)
      → WritesAtOnce slave_if state a at (suc n) cells
      → WritesAtOnce slave_if (λ j. state (suc j)) (a + 4) (suc at) n cells
  later_writes state a at n cells w = record {
    hits = λ j h.
        let there : a + 4 * suc j ≡ a + 4 + 4 * j = omega arith in
        rw there at (w.hits (suc j) (omega arith));
    takes = λ j h.
        let there : a + 4 * suc j ≡ a + 4 + 4 * j = omega arith in
        let cell : at + suc j ≡ suc at + j = omega arith in
        rw (there, cell) at (w.takes (suc j) (omega arith));
    still = λ j. w.still (suc j);
    range = λ j. w.range (suc j);
  }

  -- The first word is taken.
  first_write :
      (n a : ℕ) (state : ℕ → S) (b : Bus S) (r : Request)
      → r.do_write ≡ true
      → r.address ≡ a
      → WritesAtOnce slave_if state a r.data_at n b.cells
      → (answers (state 0) a ≡ true)
        × (call_slave b r k (state 0) ≡ returns (ok, set b.slave_port k (state 1), b.cells))
  first_write n a state b r w at writes =
      let here : a + 4 * 0 ≡ a = omega arith in
      let cell : r.data_at + 0 ≡ r.data_at = omega arith in
      (
        rw here at (writes.hits 0 (omega arith)),
        write_called b r k (state 0) (state 1) ok w
            (rw at (rw (here, cell) at (writes.takes 0 (omega arith)))),
      )

  -- A burst of `n + 1` words takes `n + 1` cycles.
  pub burst_write_ends :
      (n fuel a : ℕ) (state : ℕ → S) (b : Bus S) (r : Request)
      → Serving b i r
      → r.do_write ≡ true
      → r.address ≡ a
      → r.end_address ≡ a + 4 * n
      → a + 4 * n + 4 < 2 ^ 32
      → (a % 4 == 0) ≡ true
      → WritesAtOnce slave_if state a r.data_at n b.cells
      → Mounted b.slave_port k (state 0)
      → n < fuel
      → BurstWritten fuel b (state (suc n))
  burst_write_ends n zero a state b r v w at last small aligned writes mounted h = elim h [ ]
  burst_write_ends zero (suc fuel) a state b r v w at last small aligned writes mounted h =
      let (hit, called) = first_write 0 a state b r w at writes in
      let (b', acted, rest, slaves, cells) =
        edge-last b i r k (state 0) (set b.slave_port k (state 1)) b.cells v (rw at aligned)
          (rw at (Mounted-found b.slave_port k a mounted hit)) called (omega (arith, at, last)) in
      record {
        after = posedge b';
        last = next_word r ok;
        computed = await-woken fuel i b acted;
        resting = Resting-posedge b' i rest;
        done = refl;
        mounted =
            next-Mounted b b' (state 0) (state 1) mounted (writes.range 0) (writes.still 1) slaves;
        kept = cells;
      }
  burst_write_ends (suc n) (suc fuel) a state b r v w at last small aligned writes mounted h =
      let (hit, called) = first_write (suc n) a state b r w at writes in
      let (b', acted, serving, slaves, cells) =
        edge-more b i r k (state 0) (set b.slave_port k (state 1)) b.cells v (rw at aligned)
          (rw at (Mounted-found b.slave_port k a mounted hit)) called (omega (arith, at, last)) in
      let rest =
        burst_write_ends n fuel (a + 4) (λ j. state (suc j)) (posedge b') (next_word r wait)
          (Serving-posedge b' i serving) w (omega (arith, at)) (omega (arith, last)) (omega arith)
          (ground arith) (rw cells (later_writes state a r.data_at n b.cells writes))
          (next-Mounted b b' (state 0) (state 1) mounted (writes.range 0) (writes.still 1) slaves)
          (omega arith) in
      record {
        after = rest.after;
        last = rest.last;
        computed = await-on fuel i b acted ∙ rest.computed;
        resting = rest.resting;
        done = rest.done;
        mounted = rest.mounted;
        kept = rest.kept ∙ cells;
      }

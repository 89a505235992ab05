-- ===== src/Bus/Calls.antt =====
-- Blocking calls of one word: when they come back, with what, and when they never do
-- (src/simple_bus.cpp, burst_read and burst_write).
use simple_bus_mdu.Prelude.{
  ℕ, zero, suc, ◌+◌, ◌-◌, ◌%◌, ◌≤◌, ◌<◌, ◌≡◌, ◌≢◌, refl, ap, ◌∙◌, true, false, none, returns, set,
  ◌==◌, arith,
}
use simple_bus_mdu.Types.{Request, ok, wait, u32, SlaveIf, KeepsRange}
use simple_bus_mdu.Bus.Forms.{Bus, update}
use simple_bus_mdu.Bus.Slaves.{answers}
use simple_bus_mdu.Bus.Sole.{Serving}
use simple_bus_mdu.Bus.Edge.{edge-wait, edge-last}
use simple_bus_mdu.Bus.Mounted.{SameRange, Mounted, Mounted-set, Mounted-found, Mounted-posedge}
use simple_bus_mdu.Bus.Blocking.{posedge, await}
use simple_bus_mdu.Bus.Timing.{
  update_same, await-on, await-woken, Serving-posedge, Resting-posedge, CountsDown, Finished,
  read_called, write_called,
}

module _ {S : Type 0} ⦃slave_if : SlaveIf S⦄ (keeps : KeepsRange slave_if) where
  -- A cycle in which the slave `t` at the position `k` makes the read wait, and is `u` after it.
  pub record Held (i : ℕ) (b : Bus S) (k : ℕ) (u : S) (r : Request) : Type 0 where
    pub after : Bus S
    pub goes_on : (fuel : ℕ) → await (suc fuel) i b ≡ await fuel i after
    pub serving : Serving after i (record r { status = wait })
    pub mounted : Mounted after.slave_port k u
    pub kept : after.cells ≡ b.cells

  pub read-Held :
      (i k : ℕ) (b : Bus S) (r : Request) (t t' : S)
      → Serving b i r
      → r.do_write ≡ false
      → (r.address % 4 == 0) ≡ true
      → answers t r.address ≡ true
      → Mounted b.slave_port k t
      → slave_if.read t (b.cells r.data_at) r.address ≡ returns (wait, b.cells r.data_at, t')
      → SameRange t t'
      → Held i b k (slave_if.posedge t') r
  read-Held i k b r t t' v w aligned hit mounted e same =
      let called = read_called b r k t t' wait (b.cells r.data_at) w e in
      let (b', acted, serving, slaves, cells) =
        edge-wait b i r k t (set b.slave_port k t') (update b.cells r.data_at (b.cells r.data_at)) v
          aligned (Mounted-found b.slave_port k r.address mounted hit) called in
      let there : Mounted b'.slave_port k t' =
        rw slaves (Mounted-set b.slave_port k t t' mounted same) in
      record {
        after = posedge b';
        goes_on = λ fuel. await-on fuel i b acted;
        serving = Serving-posedge b' i serving;
        mounted = Mounted-posedge keeps b'.slave_port k there;
        kept = cells ∙ update_same b.cells r.data_at;
      }

  finish_later :
      (fuel i : ℕ) (b : Bus S) (k : ℕ) (u s : S) (r : Request) (value : ℕ) (held : Held i b k u r)
      → Finished fuel i held.after k s
          (record r { status = wait })
          (update held.after.cells r.data_at value)
      → Finished (suc fuel) i b k s r (update b.cells r.data_at value)
  finish_later fuel i b k u s r value held f = record {
    after = f.after;
    computed = held.goes_on fuel ∙ f.computed;
    resting = f.resting;
    mounted = f.mounted;
    stored = f.stored ∙ ap (λ c. update c r.data_at value) held.kept;
  }

  module _ (i k : ℕ) (s : S) (a n value : ℕ) (aligned : (a % 4 == 0) ≡ true)
      (hit : answers s a ≡ true) (counts : CountsDown s a n value) where
    busy_hit : (m : ℕ) → answers (counts.busy m) a ≡ true
    busy_hit m = let same = counts.range m in rw (same.0, same.1) hit

    busy-Held :
        (m : ℕ) (b : Bus S) (r : Request)
        → Serving b i r
        → r.do_write ≡ false
        → r.address ≡ a
        → Mounted b.slave_port k (counts.busy (suc m))
        → Held i b k (counts.busy m) r
    busy-Held m b r v w at mounted = rw (counts.ticks m) at (
        read-Held i k b r (counts.busy (suc m)) (counts.busy (suc m)) v w (rw at aligned)
          (rw at (busy_hit (suc m))) mounted (rw at (counts.holds (b.cells r.data_at) m))
          (refl, refl))

    start-Held :
        (b : Bus S) (r : Request) (m : ℕ)
        → n ≡ suc m
        → Serving b i r
        → r.do_write ≡ false
        → r.address ≡ a
        → Mounted b.slave_port k s
        → Held i b k (counts.busy m) r
    start-Held b r m e v w at mounted =
        rw (ap (λ x. slave_if.posedge (counts.busy x)) e ∙ counts.ticks m) at (
          read-Held i k b r s (counts.busy n) v w (rw at aligned) (rw at hit) mounted
            (rw at (counts.starts (b.cells r.data_at))) (counts.range n))

    -- The slave has `m` cycles left, at a falling edge: then the read ends.
    busy_ends :
        (m fuel : ℕ) (b : Bus S) (r : Request)
        → Serving b i r
        → r.do_write ≡ false
        → r.address ≡ a
        → r.end_address < u32 (a + 4)
        → Mounted b.slave_port k (counts.busy m)
        → m < fuel
        → Finished fuel i b k s r (update b.cells r.data_at value)
    busy_ends m zero b r v w at last mounted h = elim h [ ]
    busy_ends zero (suc fuel) b r v w at last mounted h =
        let called =
          read_called b r k (counts.busy 0) (counts.busy 0) ok value w
            (rw at (counts.ends (b.cells r.data_at))) in
        let (b', acted, rest, slaves, cells) =
          edge-last b i r k (counts.busy 0) _ _ v (rw at aligned)
            (rw at (Mounted-found b.slave_port k a mounted (busy_hit 0))) called (rw at last) in
        let there : Mounted b'.slave_port k (counts.busy 0) =
          rw slaves
            (Mounted-set b.slave_port k (counts.busy 0) (counts.busy 0) mounted (refl, refl)) in
        record {
          after = posedge b';
          computed = await-woken fuel i b acted;
          resting = Resting-posedge b' i rest;
          mounted = rw counts.rests at (Mounted-posedge keeps b'.slave_port k there);
          stored = cells;
        }
    busy_ends (suc m) (suc fuel) b r v w at last mounted h =
        let held = busy-Held m b r v w at mounted in
        finish_later fuel i b k (counts.busy m) s r value held (
          busy_ends m fuel held.after (record r { status = wait }) held.serving w at last
            held.mounted (omega arith))

    -- Until then the thread waits.
    busy_waits :
        (m fuel : ℕ) (b : Bus S) (r : Request)
        → Serving b i r
        → r.do_write ≡ false
        → r.address ≡ a
        → Mounted b.slave_port k (counts.busy m)
        → fuel ≤ m
        → await fuel i b ≡ returns none
    busy_waits m zero b r v w at mounted h = unfold await in refl
    busy_waits zero (suc fuel) b r v w at mounted h = absurd (omega arith)
    busy_waits (suc m) (suc fuel) b r v w at mounted h =
        let held = busy-Held m b r v w at mounted in
        held.goes_on fuel
        ∙ busy_waits m fuel held.after (record r { status = wait }) held.serving w at held.mounted
            (omega arith)

    -- A read of one word from a slave with `n` wait states, `n` at least 1, comes back after
    -- exactly `n + 1` cycles, with the slave's value in the master's cell, and leaves the slave as
    -- it was.
    pub read_takes :
        (b : Bus S) (r : Request)
        → n ≢ 0
        → Serving b i r
        → r.do_write ≡ false
        → r.address ≡ a
        → r.end_address < u32 (a + 4)
        → Mounted b.slave_port k s
        → (fuel : ℕ)
        → (n < fuel → Finished fuel i b k s r (update b.cells r.data_at value))
          × (fuel ≤ n → await fuel i b ≡ returns none)
    read_takes b r positive v w at last mounted zero = (λ h. elim h [ ], λ h. unfold await in refl)
    read_takes b r positive v w at last mounted (suc fuel) =
        let held = start-Held b r (n - 1) (omega arith) v w at mounted in
        (
          λ h. finish_later fuel i b k (counts.busy (n - 1)) s r value held (
              busy_ends (n - 1) fuel held.after (record r { status = wait }) held.serving w at last
                held.mounted (omega arith)),
          λ h.
              held.goes_on fuel
              ∙ busy_waits (n - 1) fuel held.after (record r { status = wait }) held.serving w at
                  held.mounted (omega arith),
        )

  -- A write of one word to a slave that takes it at once comes back at the next rising edge.
  pub write_takes :
      (i k : ℕ) (b : Bus S) (r : Request) (s s' : S) (fuel : ℕ)
      → (r.address % 4 == 0) ≡ true
      → answers s r.address ≡ true
      → Serving b i r
      → r.do_write ≡ true
      → r.end_address < u32 (r.address + 4)
      → Mounted b.slave_port k s
      → slave_if.write s (b.cells r.data_at) r.address ≡ returns (ok, s')
      → SameRange s s'
      → Finished (suc fuel) i b k (slave_if.posedge s') r b.cells
  write_takes i k b r s s' fuel aligned hit v w last mounted e same =
      let called = write_called b r k s s' ok w e in
      let (b', acted, rest, slaves, cells) =
        edge-last b i r k s (set b.slave_port k s') b.cells v aligned
          (Mounted-found b.slave_port k r.address mounted hit) called last in
      let there : Mounted b'.slave_port k s' =
        rw slaves (Mounted-set b.slave_port k s s' mounted same) in
      record {
        after = posedge b';
        computed = await-woken fuel i b acted;
        resting = Resting-posedge b' i rest;
        mounted = Mounted-posedge keeps b'.slave_port k there;
        stored = cells;
      }

-- ===== src/Bus/Hangs.antt =====
-- Blocking calls that never come back: src/simple_bus.cpp, handle_request, and the wait states of
-- its slaves.
use simple_bus_mdu.Prelude.{
  ℕ, zero, suc, ◌%◌, ◌≡◌, refl, ap, ◌∙◌, ◌⊎◌, inl, inr, Bool, true, false, none, some, List, [],
  ◌∷◌, returns, get_elem?, set, ◌==◌, arith,
}
use simple_bus_mdu.Types.{Request, wait, error, SlaveIf, KeepsRange}
use simple_bus_mdu.Bus.Forms.{Bus, is_pending, get_next_request, clear_locks, burst}
use simple_bus_mdu.Bus.Slaves.{answers, get_slave}
use simple_bus_mdu.Bus.Service.{reject, handle_request, pick, main_action}
use simple_bus_mdu.Bus.Invariant.{pick-none}
use simple_bus_mdu.Bus.Action.{
  handle_request-misaligned, handle_request-unmapped, handle-none, handle-some, clear_if-none,
}
use simple_bus_mdu.Bus.Sole.{
  NonePending, OthersIdle, Serving, NonePending-pending, NonePending-unlock,
}
use simple_bus_mdu.Bus.Edge.{pick_sole}
use simple_bus_mdu.Bus.Mounted.{SameRange, Mounted}
use simple_bus_mdu.Bus.Blocking.{posedge, await, blocking}
use simple_bus_mdu.Bus.Timing.{await-on}
use simple_bus_mdu.Bus.Calls.{read-Held}
use simple_bus_mdu.Bus.Quiet.{Quiet, asked, burst-Serving}
use simple_bus_mdu.Bus.Transactions.{StillWaits, blocking-StillWaits}

NonePending-error :
    (rs : List Request) (i : ℕ) (v : Request)
    → OthersIdle rs i
    → is_pending v ≡ false
    → NonePending (set rs i v)
NonePending-error [] i v o p = tt
NonePending-error (r ∷ rs) zero v o p = (p, o)
NonePending-error (r ∷ rs) (suc i) v o p = (o.0, NonePending-error rs i v o.1 p)

module _ {S : Type 0} ⦃slave_if : SlaveIf S⦄ where
  next-idle : (b : Bus S) → NonePending b.requests → get_next_request b ≡ returns b
  unfolding get_next_request
  next-idle b idle = ground (arith, NonePending-pending 0 b.requests idle)

  -- A bus with nothing pending does nothing.
  main_action-idle :
      (b : Bus S)
      → b.current ≡ none
      → NonePending b.requests
      → main_action b ≡ returns (clear_locks b, none)
  main_action-idle b c idle =
      let next : pick b ≡ returns b = pick-none b c ∙ next-idle b idle in
      unfold main_action in rw (next, handle-none b c) (ap returns (clear_if-none b none c))

  await-idle :
      (fuel i : ℕ) (b : Bus S)
      → b.current ≡ none
      → NonePending b.requests
      → await fuel i b ≡ returns none
  await-idle zero i b c idle = unfold await in refl
  await-idle (suc fuel) i b c idle =
      await-on fuel i b (main_action-idle b c idle)
      ∙ await-idle fuel i (posedge (clear_locks b)) (unfold clear_locks in c)
          (unfold clear_locks in NonePending-unlock b.requests idle)

  await-rejected :
      (fuel i : ℕ) (b : Bus S) (r : Request)
      → Serving b i r
      → ((r.address % 4 == 0) ≡ false) ⊎ (get_slave b.slave_port r.address ≡ none)
      → await fuel i b ≡ returns none
  await-rejected zero i b r v bad = unfold await in refl
  await-rejected (suc fuel) i b r v bad =
      let b' : Bus S = record b { current = some i } in
      let refused : Bus S = (reject b' i r).0 in
      let handled : handle_request b' i ≡ returns (refused, none) = rejected b' bad v.at in
      let idle : NonePending refused.requests =
        NonePending-error b.requests i (record r { status = error }) v.others refl in
      let acted : main_action b ≡ returns (clear_locks refused, none) =
        unfold main_action in
        rw (pick_sole b i v, handle-some b' i refl ∙ handled)
          (ap returns (clear_if-none refused none refl)) in
      await-on fuel i b acted
      ∙ await-idle fuel i (posedge (clear_locks refused)) (unfold clear_locks in refl)
          (unfold clear_locks in NonePending-unlock refused.requests idle)
    where
      rejected :
          (b' : Bus S)
          → ((r.address % 4 == 0) ≡ false) ⊎ (get_slave b'.slave_port r.address ≡ none)
          → get_elem? b'.requests i ≡ some r
          → handle_request b' i ≡ returns (reject b' i r)
      rejected b' (inl e) at = handle_request-misaligned b' i at e
      rejected b' (inr e) at = handle_request-unmapped b' i at e

  -- A blocking call of one word on a quiet bus, at an address that is not word aligned or that no
  -- slave answers, still waits however many cycles pass.
  pub blocking-rejected :
      (do_write : Bool) (fuel : ℕ) (b : Bus S) (p at a : ℕ)
      → Quiet b
      → ((a % 4 == 0) ≡ false) ⊎ (get_slave b.slave_port a ≡ none)
      → StillWaits (blocking do_write fuel b p at a 1 false)
  blocking-rejected do_write fuel b p at a quiet bad =
      let (i, b') = burst do_write b p at a 1 false in
      let (serving, slaves, cells) = burst-Serving do_write b p at a 1 quiet in
      blocking-StillWaits do_write fuel b p at a
        (await-rejected fuel i b' (asked do_write p at a 1) serving (rw slaves bad))

  module _ (keeps : KeepsRange slave_if) (k : ℕ) (s t : S) (a : ℕ)
      (starts : (d : ℕ) → slave_if.read s d a ≡ returns (wait, d, t)) (same : SameRange s t)
      (lapses : slave_if.posedge t ≡ s) (aligned : (a % 4 == 0) ≡ true)
      (hit : answers s a ≡ true) where
    await_lapses :
        (fuel i : ℕ) (b : Bus S) (r : Request)
        → Serving b i r
        → r.do_write ≡ false
        → r.address ≡ a
        → Mounted b.slave_port k s
        → await fuel i b ≡ returns none
    await_lapses zero i b r v w at mounted = unfold await in refl
    await_lapses (suc fuel) i b r v w at mounted =
        let held =
          read-Held keeps i k b r s t v w (rw at aligned) (rw at hit) mounted
            (rw at (starts (b.cells r.data_at))) same in
        held.goes_on fuel
        ∙ await_lapses fuel i held.after (record r { status = wait }) held.serving w at
            (rw lapses at held.mounted)

    -- A slave whose count runs out at the very next rising edge is asked anew at every falling one:
    -- a read from it never comes back.
    pub burst_read_lapses :
        (fuel : ℕ) (b : Bus S) (p at : ℕ)
        → Quiet b
        → Mounted b.slave_port k s
        → StillWaits (blocking false fuel b p at a 1 false)
    burst_read_lapses fuel b p at quiet mounted =
        let (i, b') = burst false b p at a 1 false in
        let (serving, slaves, cells) = burst-Serving false b p at a 1 quiet in
        blocking-StillWaits false fuel b p at a
          (await_lapses fuel i b' (asked false p at a 1) serving refl refl (rw slaves mounted))

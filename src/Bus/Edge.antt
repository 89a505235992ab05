-- ===== src/Bus/Edge.antt =====
-- The three things that a falling edge can do to the one pending request that a slave answers
-- (src/simple_bus.cpp, main_action and handle_request).
use simple_bus_mdu.Prelude.{
  ℕ, suc, ◌+◌, ◌%◌, ◌<◌, ◌≤◌, ◌≡◌, refl, ap, ◌∙◌, ◌⊎◌, inl, inr, true, Option, none, some, List,
  map, returns, get_elem?, set, All-set, get_elem?-set_self, get_elem?-lt, ◌==◌, arith,
}
use simple_bus_mdu.Types.{Request, Status, ok, wait, error, lock_no, u32, SlaveIf}
use simple_bus_mdu.Bus.Forms.{Bus, unlock, clear_locks}
use simple_bus_mdu.Bus.Slaves.{get_slave}
use simple_bus_mdu.Bus.Service.{
  complete, call_slave, transfer, pick, handle_current, clear_if_idle, main_action,
}
use simple_bus_mdu.Bus.Invariant.{pick-none, pick-some, transfer-returns}
use simple_bus_mdu.Bus.Action.{handle_request-served, handle-some, clear_if-none, clear_if-some}
use simple_bus_mdu.Bus.Sole.{
  Serving, Resting, NoLocks-unlock, OthersIdle-set, OthersIdle-unlock, get-unlock, next_sole,
}

-- A request once a word of it has been transferred.
abbrev pub next_word : Request → Status → Request
next_word r st = record r { address = u32 (r.address + 4); data_at = suc r.data_at; status = st }

module _ {S : Type 0} ⦃slave_if : SlaveIf S⦄ where
  pub pick_sole :
      (b : Bus S) (i : ℕ) {r : Request}
      → Serving b i r
      → pick b ≡ returns (record b { current = some i })
  pick_sole b i s = picked s.current
    where
      picked :
          (b.current ≡ none) ⊎ (b.current ≡ some i)
          → pick b ≡ returns (record b { current = some i })
      picked (inl e) = pick-none b e ∙ next_sole b i s
      picked (inr e) = pick-some b i e ∙ ground arith

  call_slave-same :
      (b : Bus S) (i : ℕ) (r : Request) (k : ℕ) (s : S)
      → call_slave (record b { current = some i }) (record r { status = wait }) k s
        ≡ call_slave b r k s
  unfolding call_slave
  call_slave-same b i r k s = refl

  main_action-sole :
      (b : Bus S) (i : ℕ) (r : Request) (k : ℕ) (s : S) (st : Status) (slaves : List S)
      (cells : ℕ → ℕ)
      → Serving b i r
      → (r.address % 4 == 0) ≡ true
      → get_slave b.slave_port r.address ≡ some (k, s)
      → call_slave b r k s ≡ returns (st, slaves, cells)
      → main_action b
        ≡ returns (
            clear_if_idle (
              complete
                (record b { current = some i; slave_port = slaves; cells = cells })
                i
                (record r { status = wait })
                st))
  main_action-sole b i r k s st slaves cells v aligned found called =
      let b' : Bus S = record b { current = some i } in
      let handled : handle_current b' ≡ transfer b' i (record r { status = wait }) k s =
        handle-some b' i refl ∙ handle_request-served b' i v.at aligned found in
      let moved =
        transfer-returns b' i (record r { status = wait }) k s st slaves cells
          (call_slave-same b i r k s ∙ called) in
      unfold main_action in rw (pick_sole b i v, handled ∙ moved)

  -- What the slave's answer leaves of the bus.
  module _ (b : Bus S) (i : ℕ) (r : Request) (k : ℕ) (s : S) (slaves : List S) (cells : ℕ → ℕ)
      (serving : Serving b i r) (aligned : (r.address % 4 == 0) ≡ true)
      (found : get_slave b.slave_port r.address ≡ some (k, s)) where
    placed : (v : Request) → get_elem? (set b.requests i v) i ≡ some v
    placed v = get_elem?-set_self b.requests i v (get_elem?-lt b.requests i serving.at)

    -- The slave asks to wait: the request stays the current one.
    pub edge-wait :
        call_slave b r k s ≡ returns (wait, slaves, cells)
        → (b' : Bus S) × (main_action b ≡ returns (b', none))
          × Serving b' i (record r { status = wait })
          × (b'.slave_port ≡ slaves)
          × (b'.cells ≡ cells)
    edge-wait called =
        let after : Bus S = record b {
          requests = set b.requests i (record r { status = wait });
          current = some i;
          slave_port = slaves;
          cells = cells;
        } in
        (
          after,
          main_action-sole b i r k s wait slaves cells serving aligned found called
              ∙ ap returns (unfold complete in clear_if-some after none i refl),
          record {
            current = inr refl;
            at = placed (record r { status = wait });
            others = OthersIdle-set b.requests i (record r { status = wait }) serving.others;
            is_due = refl;
            unlocked = serving.unlocked;
            no_locks =
                All-set (λ x. x.lock ≡ lock_no) b.requests i (record r { status = wait })
                  serving.no_locks serving.unlocked;
          },
          refl,
          refl,
        )

    abbrev cleared : Request → Bus S
    cleared v = record {
      requests = map unlock (set b.requests i v);
      current = none;
      slave_port = slaves;
      cells = cells;
    }

    settles :
        (v : Request) (st : Status) (woken : Option ℕ)
        → call_slave b r k s ≡ returns (st, slaves, cells)
        → complete
            (record b { current = some i; slave_port = slaves; cells = cells })
            i
            (record r { status = wait })
            st
          ≡ (
            record {
              requests = set b.requests i v;
              current = none;
              slave_port = slaves;
              cells = cells;
            },
            woken,
          )
        → main_action b ≡ returns (cleared v, woken)
    settles v st woken called completed =
        main_action-sole b i r k s st slaves cells serving aligned found called
        ∙ ap (λ x. returns (clear_if_idle x)) completed
        ∙ ap returns (unfold clear_locks in clear_if-none _ woken refl)

    resting : (v : Request) → v.lock ≡ r.lock → Resting (cleared v) i v
    resting v l = record {
      current = refl;
      at = get-unlock (set b.requests i v) i (placed v) (l ∙ serving.unlocked);
      others =
          OthersIdle-unlock (set b.requests i v) i (OthersIdle-set b.requests i v serving.others);
      unlocked = l ∙ serving.unlocked;
      no_locks =
          NoLocks-unlock (set b.requests i v) (
            All-set (λ x. x.lock ≡ lock_no) b.requests i v serving.no_locks (l ∙ serving.unlocked));
    }

    -- The slave fails: the request ends in an error, and its master is woken.
    pub edge-error :
        call_slave b r k s ≡ returns (error, slaves, cells)
        → (b' : Bus S) × (main_action b ≡ returns (b', some i))
          × Resting b' i (record r { status = error })
          × (b'.slave_port ≡ slaves)
          × (b'.cells ≡ cells)
    edge-error called =
        let v : Request = record r { status = error } in
        (
          cleared v,
          settles v error (some i) called (unfold complete in refl),
          resting v refl,
          refl,
          refl,
        )

    -- The last word is transferred: the request is done, and its master is woken.
    pub edge-last :
        call_slave b r k s ≡ returns (ok, slaves, cells)
        → r.end_address < u32 (r.address + 4)
        → (b' : Bus S) × (main_action b ≡ returns (b', some i))
          × Resting b' i (next_word r ok)
          × (b'.slave_port ≡ slaves)
          × (b'.cells ≡ cells)
    edge-last called past = (
      cleared (next_word r ok),
      settles (next_word r ok) ok (some i) called (unfold complete in ground arith),
      resting (next_word r ok) refl,
      refl,
      refl,
    )

    -- A word is transferred and more are to come: the request stays pending, no longer current.
    pub edge-more :
        call_slave b r k s ≡ returns (ok, slaves, cells)
        → u32 (r.address + 4) ≤ r.end_address
        → (b' : Bus S) × (main_action b ≡ returns (b', none))
          × Serving b' i (next_word r wait)
          × (b'.slave_port ≡ slaves)
          × (b'.cells ≡ cells)
    edge-more called left =
        let rest = resting (next_word r wait) refl in
        (
          cleared (next_word r wait),
          settles (next_word r wait) ok none called (unfold complete in ground arith),
          record {
            current = inl refl;
            at = rest.at;
            others = rest.others;
            is_due = refl;
            unlocked = rest.unlocked;
            no_locks = rest.no_locks;
          },
          refl,
          refl,
        )

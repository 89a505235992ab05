-- ===== src/Masters/Interleavings.antt =====
-- In no interleaving of masters with distinct priorities does an assertion of the bus or of its arbiter
-- fail (src/simple_bus.cpp, src/simple_bus_arbiter.cpp).
use simple_bus_mdu.Prelude.{
  ℕ, ◌%◌, ◌≡◌, refl, ◌⊎◌, inl, inr, Bool, false, Option, List, Outcome, returns, fault, ◌==◌,
  Bool-cases, Option-cases, Outcome-cases,
}
use simple_bus_mdu.Types.{SlaveIf}
use simple_bus_mdu.Bus.Forms.{Bus, non_blocking}
use simple_bus_mdu.Bus.Slaves.{get_slave}
use simple_bus_mdu.Bus.Service.{main_action, direct_read, direct_write}
use simple_bus_mdu.Bus.Invariant.{IsValid, ReturnsValid, SlaveFault}
use simple_bus_mdu.Bus.Action.{main_action-IsValid}
use simple_bus_mdu.Masters.Polling.{main_action_keeps}
use simple_bus_mdu.Bus.NonBlocking.{non_blocking-IsValid}
use simple_bus_mdu.Bus.Done.{get_request-finished}
use simple_bus_mdu.Bus.Finishing.{main_action-Finishes}
use simple_bus_mdu.Masters.Threads.{
  Threads, is_running, wake, Step, calls, asks, polls, looks, puts, computes, falls, rises, init,
  Reach, start, later,
}
use simple_bus_mdu.Masters.Idle.{
  IsSafe, resume-idle, running-idle, wake-idle, calls-IsSafe, asks-IsSafe, polls-IsSafe,
}

module _ {S : Type 0} ⦃slave_if : SlaveIf S⦄ where
  -- What changes no form keeps all of it.
  same_forms-IsSafe :
      (s : Threads S) (b : Bus S)
      → b.requests ≡ s.bus.requests
      → b.current ≡ s.bus.current
      → IsSafe s
      → IsSafe (record s { bus = b })
  same_forms-IsSafe s b e c safe = record {
    valid = record { unique = rw e safe.valid.unique; waiting = rw (e, c) safe.valid.waiting };
    idle_done = λ t idle. rw e (safe.idle_done t idle);
  }

  -- The same forms, where the call returns at all.
  abbrev SameForms : Bus S → Outcome (Bool × Bus S) → Type 0
  SameForms b (returns (done, b')) = (b'.requests ≡ b.requests) × (b'.current ≡ b.current)
  SameForms b (fault e) = Unit {0}

  -- The direct interface changes no form.
  direct_read-SameForms : (b : Bus S) (at address : ℕ) → SameForms b (direct_read b at address)
  unfolding direct_read
  direct_read-SameForms b at address = elim (Bool-cases (address % 4 == 0)) [
    | inr e ↦ rw e (refl, refl)
    | inl e ↦ elim (Option-cases (get_slave b.slave_port address)) [
      | inl f ↦ rw (e, f) (refl, refl)
      | inr ((k, s), f) ↦ elim (Outcome-cases (slave_if.direct_read s (b.cells at) address)) [
        | inl ((done, d), g) ↦ rw (e, f, g) (refl, refl)
        | inr (x, g) ↦ rw (e, f, g) tt
      ]
    ]
  ]

  direct_write-SameForms : (b : Bus S) (at address : ℕ) → SameForms b (direct_write b at address)
  unfolding direct_write
  direct_write-SameForms b at address = elim (Bool-cases (address % 4 == 0)) [
    | inr e ↦ rw e (refl, refl)
    | inl e ↦ elim (Option-cases (get_slave b.slave_port address)) [
      | inl f ↦ rw (e, f) (refl, refl)
      | inr ((k, s), f) ↦ elim (Outcome-cases (slave_if.direct_write s (b.cells at) address)) [
        | inl ((done, s'), g) ↦ rw (e, f, g) (refl, refl)
        | inr (x, g) ↦ rw (e, f, g) tt
      ]
    ]
  ]

  falls-IsSafe :
      (s : Threads S) (b : Bus S) (woken : Option ℕ)
      → main_action s.bus ≡ returns (b, woken)
      → IsSafe s
      → IsSafe (record { bus = b; mode = wake b.requests woken s.mode })
  falls-IsSafe s b woken e safe =
      let finishes = main_action-Finishes s.bus b woken safe.valid e in
      let v : IsValid b = main_action_keeps s.bus b woken safe.valid e in
      record {
        valid = v;
        idle_done = λ t idle.
            elim (wake-idle b.requests woken s.mode t v.unique finishes.woken_done idle) [
              | inl at_rest ↦ finishes.keeps t (safe.idle_done t at_rest)
              | inr done ↦ done
            ];
      }

  Step-IsSafe : {s s' : Threads S} → Step s s' → IsSafe s → IsSafe s'
  Step-IsSafe {s = s} (calls t do_write at address length lock free) safe =
      calls-IsSafe s t do_write at address length lock free safe
  Step-IsSafe {s = s} (asks t do_write at address lock {b} free e) safe =
      asks-IsSafe s t do_write at address lock b free e safe
  Step-IsSafe {s = s} (polls t waits) safe = polls-IsSafe s t waits safe
  Step-IsSafe {s = s} (looks at address {done} {b} e) safe =
      let (forms, current) = rw e at (direct_read-SameForms s.bus at address) in
      same_forms-IsSafe s b forms current safe
  Step-IsSafe {s = s} (puts at address {done} {b} e) safe =
      let (forms, current) = rw e at (direct_write-SameForms s.bus at address) in
      same_forms-IsSafe s b forms current safe
  Step-IsSafe {s = s} (computes cells) safe =
      same_forms-IsSafe s (record s.bus { cells = cells }) refl refl safe
  Step-IsSafe {s = s} (falls {b} {woken} e) safe = falls-IsSafe s b woken e safe
  Step-IsSafe {s = s} rises safe = record {
    valid = record { unique = safe.valid.unique; waiting = safe.valid.waiting };
    idle_done = λ t idle. safe.idle_done t (resume-idle (s.mode t) idle);
  }

  init-IsSafe : (slaves : List S) (cells : ℕ → ℕ) → IsSafe (init slaves cells)
  init-IsSafe slaves cells = record {
    valid = record { unique = tt; waiting = tt };
    idle_done = λ t idle. tt;
  }

  pub Reach-IsSafe :
      {slaves : List S} {cells : ℕ → ℕ} {s : Threads S} → Reach slaves cells s → IsSafe s
  Reach-IsSafe start = init-IsSafe _ _
  Reach-IsSafe (later r step) = Step-IsSafe step (Reach-IsSafe r)

  -- Masters with distinct priorities, any number of them, on a bus with any slaves, interleaved in any
  -- order. In every state that they reach, a falling edge returns, unless a slave's own operation stops
  -- the program: the arbiter's assertion holds. And any thread that is not in a call may `read` or
  -- `write` next: the assertion that its last request is finished holds.
  pub no_assertion_fails :
      (slaves : List S) (cells : ℕ → ℕ) (s : Threads S) (t : ℕ) (do_write : Bool) (at address : ℕ)
      (lock : Bool)
      → Reach slaves cells s
      → (ReturnsValid (main_action s.bus) ⊎ SlaveFault slave_if (main_action s.bus))
        × ((is_running (s.mode t) ≡ false)
            ⊎ ((b : Bus S) × (non_blocking do_write s.bus t at address lock ≡ returns b)
                × IsValid b))
  no_assertion_fails slaves cells s t do_write at address lock reached =
      let safe = Reach-IsSafe reached in
      (
        main_action-IsValid s.bus safe.valid,
        elim (Bool-cases (is_running (s.mode t))) [
          | inr e ↦ inl e
          | inl e ↦
              let finished =
                get_request-finished t s.bus.requests
                  (safe.idle_done t (running-idle (s.mode t) e)) in
              elim (non_blocking-IsValid do_write s.bus t at address lock safe.valid) [
                | inl (f, returned_valid) ↦ inr returned_valid
                | inr (f, x) ↦ absurd cc
              ]
        ],
      )

-- ===== src/Masters/Polling.antt =====
-- A non-blocking call of one word on a quiet bus whose slave takes it at once, and the status that its
-- master asks for until it is done: src/simple_bus.cpp, read, write and get_status.
use simple_bus_mdu.Prelude.{
  ℕ, zero, suc, ◌+◌, ◌-◌, ◌%◌, ◌^◌, ◌<◌, ◌≡◌, refl, ◌∙◌, subst, inl, inr, Bool, ◌≢◌, All-get, true,
  false, Option, some, List, [], ◌∷◌, Outcome, returns, get_elem?, set, ◌==◌, Bool-cases, arith,
}
use simple_bus_mdu.Types.{Request, ok, SlaveIf, KeepsRange}
use simple_bus_mdu.Bus.Forms.{
  Bus, get_request, is_finished, burst, non_blocking, last_address, get_status,
}
use simple_bus_mdu.Bus.Slaves.{answers}
use simple_bus_mdu.Bus.Service.{call_slave, main_action}
use simple_bus_mdu.Bus.Requests.{Unique}
use simple_bus_mdu.Bus.Invariant.{IsValid, in_read, in_write}
use simple_bus_mdu.Bus.Action.{main_action-IsValid}
use simple_bus_mdu.Bus.NonBlocking.{fill-IsValid}
use simple_bus_mdu.Bus.Sole.{NonePending, Serving}
use simple_bus_mdu.Bus.Timing.{Resting-posedge}
use simple_bus_mdu.Bus.Edge.{edge-last, next_word}
use simple_bus_mdu.Bus.Mounted.{SameRange, Mounted, Mounted-set, Mounted-found, Mounted-posedge}
use simple_bus_mdu.Bus.Blocking.{posedge}
use simple_bus_mdu.Bus.Quiet.{Quiet, Resting-Quiet, asked, burst-Serving, last_address-one}
use simple_bus_mdu.Masters.Rounds.{tick, poll}
use simple_bus_mdu.Masters.Idle.{returned}

-- The form of a priority is the one that stands in the vector.
get_request-at :
    (rs : List Request) (i p : ℕ) (r : Request)
    → Unique rs
    → get_elem? rs i ≡ some r
    → r.priority ≡ p
    → get_request rs p ≡ (i, r, rs)
unfolding get_request
get_request-at [] i p r u e h = cc
get_request-at (q ∷ rs) zero p r u e h = ground arith
get_request-at (q ∷ rs) (suc i) p r u e h =
    let rest = get_request-at rs i p r u.1 e h in
    let other : r.priority ≢ q.priority = All-get (λ x. x.priority ≢ q.priority) rs i u.0 e in
    let apart : (q.priority == p) ≡ false = ground arith in rw (apart, rest) refl

get_request-finished :
    (rs : List Request) (p : ℕ) → NonePending rs → is_finished (get_request rs p).1.status ≡ true
unfolding get_request
get_request-finished [] p h = refl
get_request-finished (r ∷ rs) p h = elim (Bool-cases (r.priority == p)) [
  | inl e ↦ rw e (ground (arith, h.0))
  | inr e ↦ rw e (get_request-finished rs p h.1)
]

module _ {S : Type 0} ⦃slave_if : SlaveIf S⦄ where
  pub main_action_keeps :
      (b b' : Bus S) (w : Option ℕ) → IsValid b → main_action b ≡ returns (b', w) → IsValid b'
  main_action_keeps b b' w v e = elim (main_action-IsValid b v) [
    | inl r ↦ let same : r.after ≡ b' = returned _ r.computed e in subst IsValid same r.valid
    | inr (in_read t d a x f stops) ↦ absurd cc
    | inr (in_write t d a x f stops) ↦ absurd cc
  ]

  get_status-at :
      (b : Bus S) (p i : ℕ) (r : Request)
      → IsValid b
      → get_elem? b.requests i ≡ some r
      → r.priority ≡ p
      → get_status b p ≡ (r.status, b)
  unfolding get_status
  get_status-at b p i r v at owner = rw (get_request-at b.requests i p r v.unique at owner) refl

  -- The form of the master is finished: the poll ends at once.
  poll-finished :
      (fuel : ℕ) (b : Bus S) (p i : ℕ) (r : Request)
      → IsValid b
      → get_elem? b.requests i ≡ some r
      → r.priority ≡ p
      → is_finished r.status ≡ true
      → poll (suc fuel) b p ≡ returns (some b)
  unfolding poll
  poll-finished fuel b p i r v at owner f = rw (get_status-at b p i r v at owner, f) refl

  -- It is not: a cycle passes.
  poll-pending :
      (fuel : ℕ) (b b' : Bus S) (p i : ℕ) (r : Request)
      → IsValid b
      → get_elem? b.requests i ≡ some r
      → r.priority ≡ p
      → is_finished r.status ≡ false
      → tick b ≡ returns b'
      → poll (suc fuel) b p ≡ poll fuel b' p
  unfolding poll
  poll-pending fuel b b' p i r v at owner f e = rw (get_status-at b p i r v at owner, f, e) refl

  -- The call has been made and polled, and its slave is `s` at the position `k`.
  pub record Polled (p k fuel : ℕ) (s : S) (call : Outcome (Bus S)) (cells : ℕ → ℕ) : Type 0 where
    pub filed : Bus S
    pub after : Bus S
    pub called : call ≡ returns filed
    pub computed : poll fuel filed p ≡ returns (some after)
    pub valid : IsValid after
    pub quiet : Quiet after
    pub mounted : Mounted after.slave_port k s
    pub stored : after.cells ≡ cells

  non_blocking-Serving :
      (do_write : Bool) (b : Bus S) (p at a : ℕ)
      → IsValid b
      → Quiet b
      → a < 2 ^ 32
      → (b1 : Bus S) × (i : ℕ) × (non_blocking do_write b p at a false ≡ returns b1)
        × IsValid b1
        × Serving b1 i (asked do_write p at a 1)
        × (b1.slave_port ≡ b.slave_port)
        × (b1.cells ≡ b.cells)
  unfolding non_blocking burst
  non_blocking-Serving do_write b p at a v q small =
      let finished = get_request-finished b.requests p q.none_pending in
      let (serving, slaves, cells) = burst-Serving do_write b p at a 1 q in
      (
        (burst do_write b p at a 1 false).1,
        (burst do_write b p at a 1 false).0,
        rw (finished, last_address-one a small) refl,
        fill-IsValid b do_write p at a (last_address a 1) false v finished,
        serving,
        slaves,
        cells,
      )

  -- A slave that does the call at once: two polls, with a cycle between them.
  pub non_blocking-Polled :
      KeepsRange slave_if
      → (do_write : Bool) (b : Bus S) (p at a k fuel : ℕ) (s s' : S) (cells : ℕ → ℕ) → IsValid b
      → Quiet b
      → Mounted b.slave_port k s
      → a % 4 ≡ 0
      → a + 4 < 2 ^ 32
      → answers s a ≡ true
      → ((b1 : Bus S)
          → b1.cells ≡ b.cells
          → call_slave b1 (asked do_write p at a 1) k s
            ≡ returns (ok, set b1.slave_port k s', cells))
      → SameRange s s'
      → slave_if.posedge s' ≡ s'
      → 1 < fuel
      → Polled p k fuel s' (non_blocking do_write b p at a false) cells
  non_blocking-Polled keeps do_write b p at a k fuel s s' cells v q mounted aligned small hit called
        same still enough =
      let (b1, i, filed, v1, serving, slaves, kept) =
        non_blocking-Serving do_write b p at a v q (omega arith) in
      let r : Request = asked do_write p at a 1 in
      let (b2, acted, resting, slaves2, cells2) =
        edge-last b1 i r k s (set b1.slave_port k s') cells serving (ground arith)
          (rw slaves (Mounted-found b.slave_port k a mounted hit)) (called b1 kept)
          (omega (arith, last_address-one a (omega arith))) in
      let v2 : IsValid b2 = main_action_keeps b1 b2 (some i) v1 acted in
      let there : Mounted b2.slave_port k s' =
        rw (slaves2, slaves) (Mounted-set b.slave_port k s s' mounted same) in
      let b3 : Bus S = posedge b2 in
      let v3 : IsValid b3 = record { unique = v2.unique; waiting = v2.waiting } in
      let cycle : tick b1 ≡ returns b3 = unfold tick in rw acted refl in
      let more : suc (suc (fuel - 2)) ≡ fuel = omega arith in
      record {
        filed = b1;
        after = b3;
        called = filed;
        computed =
            subst (λ n. poll n b1 p ≡ returns (some b3)) more
              (poll-pending (suc (fuel - 2)) b1 b3 p i r v1 serving.at refl refl cycle
                ∙ poll-finished (fuel - 2) b3 p i (next_word r ok) v3 resting.at refl refl);
        valid = v3;
        quiet = Resting-Quiet b3 i (Resting-posedge b2 i resting) refl;
        mounted = rw still at (Mounted-posedge keeps b2.slave_port k there);
        stored = cells2;
      }

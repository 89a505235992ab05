-- ===== src/Bus/Finishing.antt =====
-- What a falling edge does to the request forms: it leaves the finished ones, and finishes the one whose
-- master it wakes (src/simple_bus.cpp, main_action).
use simple_bus_mdu.Prelude.{
  ℕ, zero, suc, ◌+◌, ◌%◌, ◌≡◌, refl, sym, subst, ◌∙◌, inl, inr, true, Option, none, some, List, [],
  ◌∷◌, map, Outcome, returns, fault, get_elem?, set, get_elem?-lt, get_elem?-set_self, ltb, ◌==◌,
  >>=-eq-returns, Bool-cases, Option-cases, Outcome-cases, arith,
}
use simple_bus_mdu.Types.{Request, Status, ok, error, wait, request, SlaveIf, u32}
use simple_bus_mdu.Arbiter.{Ref}
use simple_bus_mdu.Arbiter.Choice.{arbitrate-Chosen}
use simple_bus_mdu.Bus.Forms.{
  Bus, is_finished, is_pending, pending, unlock, put, get_next_request, clear_locks,
}
use simple_bus_mdu.Bus.Slaves.{get_slave}
use simple_bus_mdu.Bus.Service.{
  complete, call_slave, reject, handle_request, handle_current, pick, clear_if_idle, main_action,
}
use simple_bus_mdu.Bus.Requests.{Unique}
use simple_bus_mdu.Bus.Pending.{PointsTo, pending-Distinct, pending-PointsTo, Chosen-member}
use simple_bus_mdu.Bus.Invariant.{
  IsReady, IsValid, pick-none, pick-some, pick-IsReady, transfer-returns, transfer-faults,
}
use simple_bus_mdu.Bus.Action.{
  handle_request-served, handle_request-misaligned, handle_request-unmapped, clear_if-none,
  clear_if-some, handle-none, handle-some,
}
use simple_bus_mdu.Bus.Done.{Done, Done-set, Done-unlock}

-- The form of the woken master is finished.
abbrev pub WokenDone : List Request → Option ℕ → Type 0
WokenDone rs none = Unit {0}
WokenDone rs (some j) = (v : Request) × (get_elem? rs j ≡ some v) × (is_finished v.status ≡ true)

-- What was finished is finished, and so is the form of the woken master.
pub record Finishes (rs rs' : List Request) (woken : Option ℕ) : Type 0 where
  pub keeps : (t : ℕ) → Done t rs → Done t rs'
  pub woken_done : WokenDone rs' woken

set-Finishes :
    (rs : List Request) (i : ℕ) (v : Request) {q : Request}
    → get_elem? rs i ≡ some q
    → is_pending q ≡ true
    → v.priority ≡ q.priority
    → Finishes rs (set rs i v) none
set-Finishes rs i v at p same = record {
  keeps = λ t d. Done-set t rs i v d at p same;
  woken_done = tt;
}

set_done-Finishes :
    (rs : List Request) (i : ℕ) (v : Request) {q : Request}
    → get_elem? rs i ≡ some q
    → is_pending q ≡ true
    → v.priority ≡ q.priority
    → is_finished v.status ≡ true
    → Finishes rs (set rs i v) (some i)
set_done-Finishes rs i v at p same f = record {
  keeps = λ t d. Done-set t rs i v d at p same;
  woken_done = (v, get_elem?-set_self rs i v (get_elem?-lt rs i at), f);
}

get_unlocked :
    (rs : List Request) (j : ℕ) {v : Request}
    → get_elem? rs j ≡ some v
    → get_elem? (map unlock rs) j ≡ some (unlock v)
get_unlocked [] j e = cc
get_unlocked (r ∷ rs) zero e = cc
get_unlocked (r ∷ rs) (suc j) e = get_unlocked rs j e

unlock-Finishes :
    (rs rs' : List Request) (woken : Option ℕ)
    → Finishes rs rs' woken
    → Finishes rs (map unlock rs') woken
unlock-Finishes rs rs' none f = record {
  keeps = λ t d. Done-unlock t rs' (f.keeps t d);
  woken_done = tt;
}
unlock-Finishes rs rs' (some j) f =
    let (v, at, done) = f.woken_done in
    record {
      keeps = λ t d. Done-unlock t rs' (f.keeps t d);
      woken_done = (unlock v, get_unlocked rs' j at, done);
    }

returned : {A : Type 0} (m : Outcome A) {x y : A} → m ≡ returns x → m ≡ returns y → x ≡ y
returned m e f = cc

module _ {S : Type 0} ⦃slave_if : SlaveIf S⦄ where
  complete-Finishes :
      (b : Bus S) (i : ℕ) (r q : Request) (st : Status)
      → get_elem? b.requests i ≡ some q
      → is_pending q ≡ true
      → r.priority ≡ q.priority
      → Finishes b.requests (complete b i r st).0.requests (complete b i r st).1
  unfolding complete
  complete-Finishes b i r q error at p same = set_done-Finishes b.requests i _ at p same refl
  complete-Finishes b i r q ok at p same =
      let r' : Request = record r { address = u32 (r.address + 4); data_at = suc r.data_at } in
      elim (Bool-cases (ltb r'.end_address r'.address)) [
        | inl e ↦ rw e (set_done-Finishes b.requests i (record r' { status = ok }) at p same refl)
        | inr e ↦ rw e (set-Finishes b.requests i r' at p same)
      ]
  complete-Finishes b i r q wait at p same = set-Finishes b.requests i r at p same
  complete-Finishes b i r q request at p same = set-Finishes b.requests i r at p same

  -- Where the call returns at all.
  abbrev pub FinishesIf : List Request → Outcome (Bus S × Option ℕ) → Type 0
  FinishesIf rs (returns (b, woken)) = Finishes rs b.requests woken
  FinishesIf rs (fault e) = Unit {0}

  handle_request-Finishes :
      (b : Bus S) (i : ℕ) (q : Request)
      → get_elem? b.requests i ≡ some q
      → is_pending q ≡ true
      → FinishesIf b.requests (handle_request b i)
  handle_request-Finishes b i q at p = elim (Bool-cases (q.address % 4 == 0)) [
    | inr e ↦ rw (handle_request-misaligned b i at e) (rejected)
    | inl e ↦ elim (Option-cases (get_slave b.slave_port q.address)) [
      | inl f ↦ rw (handle_request-unmapped b i at f) (rejected)
      | inr ((k, s), f) ↦
          let r : Request = record q { status = wait } in
          rw (handle_request-served b i at e f) (elim (Outcome-cases (call_slave b r k s)) [
            | inl ((st, slaves, cells), g) ↦ rw (transfer-returns b i r k s st slaves cells g) (
                complete-Finishes (record b { slave_port = slaves; cells = cells }) i r q st at p
                  refl)
            | inr (x, g) ↦ rw (transfer-faults b i r k s x g) tt
          ])
    ]
  ]
    where
      rejected : Finishes b.requests (reject b i q).0.requests none
      rejected = set-Finishes b.requests i (record q { status = error }) at p refl

  abbrev Kept : Bus S → Bus S → Type 0
  Kept b b' = (t : ℕ) → Done t b.requests → Done t b'.requests

  next-Kept :
      (b : Bus S) (q : List Ref)
      → pending 0 b.requests ≡ q
      → Unique b.requests
      → (b' : Bus S) × (get_next_request b ≡ returns b') × Kept b b'
  unfolding get_next_request
  next-Kept b [] e u = (b, rw (e, get_next_request), λ t d. d)
  next-Kept b (r ∷ rs) e u =
      let (x, picked, chosen) =
        arbitrate-Chosen (r ∷ rs) (λ p. cc) (rw e at (pending-Distinct 0 b.requests u)) in
      let (y, points, same) =
        Chosen-member (PointsTo b.requests) (r ∷ rs) chosen
          (rw e at (pending-PointsTo b.requests)) in
      let at : x.pos ≡ y.pos = ground arith in
      (
        record (put b x.pos x.req) { current = some x.pos },
        rw (e, picked, get_next_request),
        λ t d.
            Done-set t b.requests x.pos x.req {r = y.req} d (rw at points.0) points.1
              (ground arith),
      )

  pick-Kept : (b p : Bus S) → IsValid b → pick b ≡ returns p → Kept b p
  pick-Kept b p v e = elim (Option-cases b.current) [
    | inl none_current ↦
        let (b', computed, kept) = next-Kept b (pending 0 b.requests) refl v.unique in
        let same : b' ≡ p = returned (pick b) (pick-none b none_current ∙ computed) e in
        rw (sym same) kept
    | inr (i, one) ↦
        let same : b ≡ p = returned (pick b) (pick-some b i one) e in rw (sym same) (λ t d. d)
  ]

  handle_current-Finishes :
      (b : Bus S) (c : Option ℕ)
      → b.current ≡ c
      → IsReady b.requests c
      → FinishesIf b.requests (handle_current b)
  handle_current-Finishes b none e ready =
      rw (handle-none b e) (record { keeps = λ t d. d; woken_done = tt })
  handle_current-Finishes b (some i) e (q, at, p) =
      rw (handle-some b i e) (handle_request-Finishes b i q at p)

  clear_if_idle-Finishes :
      (rs : List Request) (b : Bus S) (woken : Option ℕ)
      → Finishes rs b.requests woken
      → Finishes rs (clear_if_idle (b, woken)).0.requests (clear_if_idle (b, woken)).1
  unfolding clear_locks
  clear_if_idle-Finishes rs b woken f = elim (Option-cases b.current) [
    | inl e ↦ rw (clear_if-none b woken e) (unlock-Finishes rs b.requests woken f)
    | inr (i, e) ↦ rw (clear_if-some b woken i e) f
  ]

  -- A falling edge leaves finished forms finished, and the form of the master that it wakes is finished.
  pub main_action-Finishes :
      (b b' : Bus S) (woken : Option ℕ)
      → IsValid b
      → main_action b ≡ returns (b', woken)
      → Finishes b.requests b'.requests woken
  unfolding main_action
  main_action-Finishes b b' woken v e =
      let (p, picked, rest) = >>=-eq-returns (pick b) _ e in
      let ((h, w), handled, last) = >>=-eq-returns (handle_current p) _ rest in
      let (p', again, u, ready) = pick-IsReady b b.current refl v in
      let one : p' ≡ p = returned (pick b) again picked in
      let ready_p : IsReady p.requests p.current =
        subst (λ x. IsReady x.requests x.current) one ready in
      let served : FinishesIf p.requests (returns (h, w)) =
        subst (FinishesIf p.requests) handled (handle_current-Finishes p p.current refl ready_p) in
      let kept = pick-Kept b p v picked in
      let went : Finishes b.requests h.requests w = record {
        keeps = λ t d. served.keeps t (kept t d);
        woken_done = served.woken_done;
      } in
      let same : clear_if_idle (h, w) ≡ (b', woken) = cc in
      subst (λ x. Finishes b.requests x.0.requests x.1) same
        (clear_if_idle-Finishes b.requests h w went)

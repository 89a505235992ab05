-- ===== src/Bus/Invariant.antt =====
-- The bus keeps its request forms in order, and never stops the program by itself
-- (src/simple_bus.cpp, main_action).
use simple_bus_mdu.Prelude.{
  ℕ, suc, ◌+◌, ◌≡◌, ◌∙◌, refl, ◌⊎◌, inl, inr, true, Option, none, some, List, [], ◌∷◌, Outcome,
  returns, fault, Fault, get_elem?, set, get_elem?-lt, get_elem?-set_self, Bool-cases,
  Outcome-cases, arith, ltb,
}
use simple_bus_mdu.Types.{Request, Status, ok, request, wait, error, SlaveIf, u32}
use simple_bus_mdu.Arbiter.{Ref, grant}
use simple_bus_mdu.Arbiter.Choice.{arbitrate-Chosen}
use simple_bus_mdu.Bus.Forms.{Bus, is_pending, pending, put, get_next_request}
use simple_bus_mdu.Bus.Service.{complete, call_slave, transfer, pick}
use simple_bus_mdu.Bus.Requests.{Unique, Unique-set}
use simple_bus_mdu.Bus.Pending.{PointsTo, pending-Distinct, pending-PointsTo, Chosen-member}

-- The current request stands in the vector, and is pending.
abbrev pub IsReady : List Request → Option ℕ → Type 0
IsReady rs none = Unit {0}
IsReady rs (some i) = (r : Request) × (get_elem? rs i ≡ some r) × (is_pending r ≡ true)

-- The current request stands in the vector, and waits for its slave.
abbrev pub IsWaiting : List Request → Option ℕ → Type 0
IsWaiting rs none = Unit {0}
IsWaiting rs (some i) = (r : Request) × (get_elem? rs i ≡ some r) × (r.status ≡ wait)

-- What holds of the bus between two falling edges.
pub record IsValid {S : Type 0} (b : Bus S) : Type 0 where
  pub unique : Unique b.requests
  pub waiting : IsWaiting b.requests b.current

waiting-IsReady : (rs : List Request) (c : Option ℕ) → IsWaiting rs c → IsReady rs c
waiting-IsReady rs none w = tt
waiting-IsReady rs (some i) (r, at, e) = (r, at, ground arith)

module _ {S : Type 0} where
  chosen-IsReady :
      (b : Bus S) (x y : Ref)
      → Unique b.requests
      → PointsTo b.requests y
      → (x ≡ y) ⊎ (x ≡ grant y)
      → Unique (set b.requests x.pos x.req) × IsReady (set b.requests x.pos x.req) (some x.pos)
  chosen-IsReady b x y u points same =
      let at : x.pos ≡ y.pos = ground arith in
      let inside = get_elem?-lt b.requests y.pos points.0 in
      (
        rw at (Unique-set b.requests y.pos x.req points.0 (ground arith) u),
        (x.req, get_elem?-set_self b.requests x.pos x.req (rw at inside), ground arith),
      )

  next-IsReady :
      (b : Bus S) (q : List Ref)
      → pending 0 b.requests ≡ q
      → Unique b.requests
      → b.current ≡ none
      → (b' : Bus S) × (get_next_request b ≡ returns b')
        × Unique b'.requests
        × IsReady b'.requests b'.current
  unfolding get_next_request
  next-IsReady b [] e u c = (b, rw (e, get_next_request), u, rw c tt)
  next-IsReady b (r ∷ rs) e u c =
      let (x, picked, chosen) =
        arbitrate-Chosen (r ∷ rs) (λ p. cc) (rw e at (pending-Distinct 0 b.requests u)) in
      let (y, points, same) =
        Chosen-member (PointsTo b.requests) (r ∷ rs) chosen
          (rw e at (pending-PointsTo b.requests)) in
      let (u', ready) = chosen-IsReady b x y u points same in
      (
        record (put b x.pos x.req) { current = some x.pos },
        rw (e, picked, get_next_request),
        u',
        ready,
      )

-- A slave's operation that stops the program, and a call of the bus that stops with it.
pub data SlaveFault {S A : Type 0} (slave_if : SlaveIf S) (m : Outcome A) : Type 0 where
  in_read :
      (s : S) (d a : ℕ) (e : Fault)
      → slave_if.read s d a ≡ fault e
      → m ≡ fault e
      → SlaveFault slave_if m
  in_write :
      (s : S) (d a : ℕ) (e : Fault)
      → slave_if.write s d a ≡ fault e
      → m ≡ fault e
      → SlaveFault slave_if m

-- The call returns a valid bus.
pub record ReturnsValid {S : Type 0} (m : Outcome (Bus S × Option ℕ)) : Type 0 where
  pub after : Bus S
  pub woken : Option ℕ
  pub computed : m ≡ returns (after, woken)
  pub valid : IsValid after

pub stored :
    (rs : List Request) (i : ℕ) (v : Request) {q : Request}
    → Unique rs
    → get_elem? rs i ≡ some q
    → v.priority ≡ q.priority
    → Unique (set rs i v) × (get_elem? (set rs i v) i ≡ some v)
stored rs i v u at same =
    (Unique-set rs i v at same u, get_elem?-set_self rs i v (get_elem?-lt rs i at))

module _ {S : Type 0} ⦃slave_if : SlaveIf S⦄ where
  pub pick-none : (b : Bus S) → b.current ≡ none → pick b ≡ get_next_request b
  unfolding pick
  pick-none b e = ground arith

  pub pick-some : (b : Bus S) (i : ℕ) → b.current ≡ some i → pick b ≡ returns b
  unfolding pick
  pick-some b i e = ground arith

  pub pick-IsReady :
      (b : Bus S) (c : Option ℕ)
      → b.current ≡ c
      → IsValid b
      → (b' : Bus S) × (pick b ≡ returns b') × Unique b'.requests × IsReady b'.requests b'.current
  pick-IsReady b none e v =
      let (b', computed, u, ready) = next-IsReady b (pending 0 b.requests) refl v.unique e in
      (b', pick-none b e ∙ computed, u, ready)
  pick-IsReady b (some i) e v =
      (b, pick-some b i e, v.unique, waiting-IsReady b.requests b.current v.waiting)

  complete-IsValid :
      (b : Bus S) (i : ℕ) (r q : Request) (st : Status)
      → Unique b.requests
      → get_elem? b.requests i ≡ some q
      → r.priority ≡ q.priority
      → r.status ≡ wait
      → b.current ≡ some i
      → IsValid (complete b i r st).0
  unfolding complete
  complete-IsValid b i r q error u at same w c = record {
    unique = (stored b.requests i (record r { status = error }) u at same).0;
    waiting = tt;
  }
  complete-IsValid b i r q ok u at same w c =
      let r' : Request = record r { address = u32 (r.address + 4); data_at = suc r.data_at } in
      elim (Bool-cases (ltb r'.end_address r'.address)) [
        | inl e ↦ rw e (record {
          unique = (stored b.requests i (record r' { status = ok }) u at same).0;
          waiting = tt;
        })
        | inr e ↦ rw e (record { unique = (stored b.requests i r' u at same).0; waiting = tt })
      ]
  complete-IsValid b i r q wait u at same w c =
      let kept = stored b.requests i r u at same in
      record { unique = kept.0; waiting = rw c (r, kept.1, w) }
  complete-IsValid b i r q request u at same w c =
      let kept = stored b.requests i r u at same in
      record { unique = kept.0; waiting = rw c (r, kept.1, w) }

  pub transfer-returns :
      (b : Bus S) (i : ℕ) (r : Request) (k : ℕ) (s : S) (st : Status) (slaves : List S)
      (cells : ℕ → ℕ)
      → call_slave b r k s ≡ returns (st, slaves, cells)
      → transfer b i r k s
        ≡ returns (complete (record b { slave_port = slaves; cells = cells }) i r st)
  unfolding transfer
  transfer-returns b i r k s st slaves cells f = rw f

  pub transfer-faults :
      (b : Bus S) (i : ℕ) (r : Request) (k : ℕ) (s : S) (e : Fault)
      → call_slave b r k s ≡ fault e
      → transfer b i r k s ≡ fault e
  unfolding transfer
  transfer-faults b i r k s e f = rw f

  call_slave-fault :
      {A : Type 0} (b : Bus S) (r : Request) (k : ℕ) (s : S) (e : Fault) (m : Outcome A)
      → call_slave b r k s ≡ fault e
      → m ≡ fault e
      → SlaveFault slave_if m
  unfolding call_slave
  call_slave-fault b r k s e m f x =
      let d : ℕ = b.cells r.data_at in
      let a : ℕ = r.address in
      elim (Bool-cases r.do_write) [
        | inl w ↦ elim (Outcome-cases (slave_if.write s d a)) [
          | inl (y, g) ↦ absurd (ground arith)
          | inr (y, g) ↦ in_write s d a e (ground arith) x
        ]
        | inr w ↦ elim (Outcome-cases (slave_if.read s d a)) [
          | inl (y, g) ↦ absurd (ground arith)
          | inr (y, g) ↦ in_read s d a e (ground arith) x
        ]
      ]

  pub transfer-IsValid :
      (b : Bus S) (i : ℕ) (r q : Request) (k : ℕ) (s : S)
      → Unique b.requests
      → get_elem? b.requests i ≡ some q
      → r.priority ≡ q.priority
      → r.status ≡ wait
      → b.current ≡ some i
      → ReturnsValid (transfer b i r k s) ⊎ SlaveFault slave_if (transfer b i r k s)
  transfer-IsValid b i r q k s u at same w c = elim (Outcome-cases (call_slave b r k s)) [
    | inl ((st, slaves, cells), f) ↦
        let b' : Bus S = record b { slave_port = slaves; cells = cells } in
        inl (record {
          after = (complete b' i r st).0;
          woken = (complete b' i r st).1;
          computed = transfer-returns b i r k s st slaves cells f;
          valid = complete-IsValid b' i r q st u at same w c;
        })
    | inr (e, f) ↦ inr (call_slave-fault b r k s e _ f (transfer-faults b i r k s e f))
  ]

-- ===== src/Bus/Pending.antt =====
-- The bag of pending requests that the bus hands to the arbiter, and the request that comes back
-- (src/simple_bus.cpp, get_next_request).
use mathlib.Core.List.{Memᴰ}
use simple_bus_mdu.Prelude.{
  ℕ, suc, ◌+◌, ◌≡◌, ◌≢◌, refl, ap, sym, ◌∙◌, ◌⊎◌, inl, inr, true, some, List, [], ◌∷◌, ◌++◌,
  get_elem?, All, Bool-cases, arith,
}
use simple_bus_mdu.Types.{Request, LockStatus, lock_no, lock_set, lock_granted}
use simple_bus_mdu.Arbiter.{Ref, grant, granted_if_locked}
use simple_bus_mdu.Arbiter.Choice.{Lacks, Distinct, Chosen, IsGranted, locked, granted, least}
use simple_bus_mdu.Bus.Forms.{is_pending, pending}
use simple_bus_mdu.Bus.Requests.{LacksPriority, Unique}

pending-Lacks : (n k : ℕ) (rs : List Request) → LacksPriority n rs → Lacks n (pending k rs)
unfolding pending
pending-Lacks n k [] l = tt
pending-Lacks n k (r ∷ rs) l = elim (Bool-cases (is_pending r)) [
  | inl e ↦ rw e (l.0, pending-Lacks n (suc k) rs l.1)
  | inr e ↦ rw e (pending-Lacks n (suc k) rs l.1)
]

pub pending-Distinct : (k : ℕ) (rs : List Request) → Unique rs → Distinct (pending k rs)
unfolding pending
pending-Distinct k [] u = tt
pending-Distinct k (r ∷ rs) u = elim (Bool-cases (is_pending r)) [
  | inl e ↦ rw e (pending-Lacks r.priority (suc k) rs u.0, pending-Distinct (suc k) rs u.1)
  | inr e ↦ rw e (pending-Distinct (suc k) rs u.1)
]

-- The pointer leads to that request, and the request is pending.
abbrev pub PointsFrom : ℕ → List Request → Ref → Type 0
PointsFrom k rs x =
    (j : ℕ) × (x.pos ≡ k + j) × (get_elem? rs j ≡ some x.req) × (is_pending x.req ≡ true)

abbrev pub PointsTo : List Request → Ref → Type 0
PointsTo rs x = (get_elem? rs x.pos ≡ some x.req) × (is_pending x.req ≡ true)

PointsFrom-tail :
    (k : ℕ) (r : Request) (rs : List Request) (q : List Ref)
    → All (PointsFrom (suc k) rs) q
    → All (PointsFrom k (r ∷ rs)) q
PointsFrom-tail k r rs [] a = tt
PointsFrom-tail k r rs (x ∷ q) a =
    let (j, at, e, p) = a.0 in ((suc j, omega arith, e, p), PointsFrom-tail k r rs q a.1)

pending-PointsFrom : (k : ℕ) (rs : List Request) → All (PointsFrom k rs) (pending k rs)
unfolding pending
pending-PointsFrom k [] = tt
pending-PointsFrom k (r ∷ rs) =
    let rest = PointsFrom-tail k r rs (pending (suc k) rs) (pending-PointsFrom (suc k) rs) in
    elim (Bool-cases (is_pending r)) [
      | inl e ↦ rw e ((0, omega arith, refl, e), rest)
      | inr e ↦ rw e rest
    ]

current-PointsTo :
    (rs : List Request) (q : List Ref) → All (PointsFrom 0 rs) q → All (PointsTo rs) q
current-PointsTo rs [] a = tt
current-PointsTo rs (x ∷ q) a =
    let (j, at, e, p) = a.0 in
    let same : x.pos ≡ j = omega arith in ((rw same e, p), current-PointsTo rs q a.1)

pub pending-PointsTo : (rs : List Request) → All (PointsTo rs) (pending 0 rs)
pending-PointsTo rs = current-PointsTo rs (pending 0 rs) (pending-PointsFrom 0 rs)

All-middle :
    (P : Ref → Type 0) (before : List Ref) (x : Ref) (after : List Ref)
    → All P (before ++ x ∷ after)
    → P x
All-middle P [] x after a = a.0
All-middle P (b ∷ before) x after a = All-middle P before x after a.1

All-mem : (P : Ref → Type 0) (q : List Ref) {x : Ref} → Memᴰ x q → All P q → P x
All-mem P [] m a = elim m [ ]
All-mem P (b ∷ q) (Memᴰ.head e) a = rw e (a.0)
All-mem P (b ∷ q) (Memᴰ.tail m) a = All-mem P q m a.1

Lock-cases : (l : LockStatus) → (l ≡ lock_no) ⊎ ((l ≡ lock_set) ⊎ (l ≡ lock_granted))
Lock-cases lock_no = inl refl
Lock-cases lock_set = inr (inl refl)
Lock-cases lock_granted = inr (inr refl)

IsGranted-grant :
    (best x : Ref) → IsGranted best x → best.req.lock ≢ lock_granted → (x ≡ best) ⊎ (x ≡ grant best)
IsGranted-grant best x g free = elim (Lock-cases best.req.lock) [
  | inl e ↦ inl (λ i. record { pos = g.same_place i; req = g.if_unlocked e i })
  | inr (inl e) ↦
      let same : x ≡ record best { req = record best.req { lock = lock_granted } } =
        λ i. record { pos = g.same_place i; req = g.if_set e i } in
      inr (
        same
        ∙ ap (λ l. record best { req = record best.req { lock = granted_if_locked l } }) (sym e))
  | inr (inr e) ↦ absurd (free e)
]

-- What the arbiter returns is one of the requests that it was given, up to the grant of a lock.
pub Chosen-member :
    (P : Ref → Type 0) (q : List Ref) {x : Ref}
    → Chosen q x
    → All P q
    → (y : Ref) × P y × ((x ≡ y) ⊎ (x ≡ grant y))
Chosen-member P q {x} (locked f) a =
    (x, All-middle P f.before x f.after (rw f.split at a), inl refl)
Chosen-member P q {x} (granted _ f) a =
    (x, All-middle P f.before x f.after (rw f.split at a), inl refl)
Chosen-member P q {x} (least best _ free m _ e) a = (
  best,
  All-mem P q m a,
  IsGranted-grant best x e (All-mem (λ r. r.req.lock ≢ lock_granted) q m free),
)

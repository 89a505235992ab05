-- ===== src/Bus/Requests.antt =====
-- The request forms of the bus: at most one for each priority, and none ever moves
-- (src/simple_bus.cpp, get_request and get_next_request).
use mathlib.Core.List.{append-nil}
use simple_bus_mdu.Prelude.{
  ℕ, zero, suc, ◌≡◌, refl, ap, sym, ◌≢◌, ◌⊎◌, inl, inr, some, List, [], ◌∷◌, ◌++◌, map, get_elem?,
  set, All, Bool-cases, arith, ◌==◌,
}
use simple_bus_mdu.Types.{Request, new_request}
use simple_bus_mdu.Bus.Forms.{get_request, unlock}

-- No form of the vector has the priority `n`.
abbrev pub LacksPriority : ℕ → List Request → Type 0
LacksPriority n = All (λ r. r.priority ≢ n)

abbrev pub Unique : List Request → Type 0
Unique [] = Unit {0}
Unique (r ∷ rs) = LacksPriority r.priority rs × Unique rs

-- What `get_request` gives: a form of that priority, at its place in a vector that still has every
-- old form where it was and no priority twice; a second call gives the same form.
pub record Found (rs : List Request) (p : ℕ) : Type 0 where
  pub in_place : get_elem? (get_request rs p).2 (get_request rs p).0 ≡ some (get_request rs p).1
  pub of_priority : (get_request rs p).1.priority ≡ p
  pub still_unique : Unique (get_request rs p).2
  pub added : List Request
  pub old_kept : (get_request rs p).2 ≡ rs ++ added
  pub one_added : (added ≡ []) ⊎ (added ≡ record new_request { priority = p } ∷ [])
  pub same_again : get_request (get_request rs p).2 p ≡ get_request rs p

pub get_request-in_place :
    (rs : List Request) (p : ℕ)
    → get_elem? (get_request rs p).2 (get_request rs p).0 ≡ some (get_request rs p).1
unfolding get_request
get_request-in_place [] p = refl
get_request-in_place (r ∷ rs) p = ground (arith, get_request-in_place rs p)

pub get_request-priority : (rs : List Request) (p : ℕ) → (get_request rs p).1.priority ≡ p
unfolding get_request
get_request-priority [] p = refl
get_request-priority (r ∷ rs) p = ground (arith, get_request-priority rs p)

get_request-kept :
    (rs : List Request) (p : ℕ)
    → (added : List Request) × ((get_request rs p).2 ≡ rs ++ added)
      × ((added ≡ []) ⊎ (added ≡ record new_request { priority = p } ∷ []))
unfolding get_request
get_request-kept [] p = (record new_request { priority = p } ∷ [], refl, inr refl)
get_request-kept (r ∷ rs) p = elim (Bool-cases (r.priority == p)) [
  | inl e ↦ ([], rw e (ap (λ qs. r ∷ qs) (sym (append-nil rs))), inl refl)
  | inr e ↦ let (added, f, one) = get_request-kept rs p in (added, rw e (ap (λ qs. r ∷ qs) f), one)
]

get_request-again :
    (rs : List Request) (p : ℕ) → get_request (get_request rs p).2 p ≡ get_request rs p
unfolding get_request
get_request-again [] p = ground arith
get_request-again (r ∷ rs) p = ground (arith, get_request-again rs p)

get_request-Lacks :
    (rs : List Request) (p n : ℕ)
    → p ≢ n
    → LacksPriority n rs
    → LacksPriority n (get_request rs p).2
unfolding get_request
get_request-Lacks [] p n h l = (h, tt)
get_request-Lacks (r ∷ rs) p n h l = elim (Bool-cases (r.priority == p)) [
  | inl e ↦ rw e l
  | inr e ↦ rw e (l.0, get_request-Lacks rs p n h l.1)
]

get_request-Unique : (rs : List Request) (p : ℕ) → Unique rs → Unique (get_request rs p).2
unfolding get_request
get_request-Unique [] p u = (tt, tt)
get_request-Unique (r ∷ rs) p u = elim (Bool-cases (r.priority == p)) [
  | inl e ↦ rw e u
  | inr e ↦ rw e (get_request-Lacks rs p r.priority (ground arith) u.0, get_request-Unique rs p u.1)
]

-- In a vector whose forms have distinct priorities, `get_request` gives a form of the priority asked
-- for and says where it is; it keeps every form in its place, adds at most one, a new one, at the end, keeps
-- priorities distinct, and gives the same form and vector when it is asked again.
pub get_request-Found : (rs : List Request) (p : ℕ) → Unique rs → Found rs p
get_request-Found rs p u = record {
  in_place = get_request-in_place rs p;
  of_priority = get_request-priority rs p;
  still_unique = get_request-Unique rs p u;
  added = (get_request-kept rs p).0;
  old_kept = (get_request-kept rs p).1;
  one_added = (get_request-kept rs p).2;
  same_again = get_request-again rs p;
}

LacksPriority-set :
    (n : ℕ) (rs : List Request) (i : ℕ) (v : Request)
    → v.priority ≢ n
    → LacksPriority n rs
    → LacksPriority n (set rs i v)
LacksPriority-set n [] i v h l = l
LacksPriority-set n (r ∷ rs) zero v h l = (h, l.1)
LacksPriority-set n (r ∷ rs) (suc i) v h l = (l.0, LacksPriority-set n rs i v h l.1)

LacksPriority-get :
    (n : ℕ) (rs : List Request) (i : ℕ) {q : Request}
    → LacksPriority n rs
    → get_elem? rs i ≡ some q
    → q.priority ≢ n
LacksPriority-get n [] i l h = cc
LacksPriority-get n (r ∷ rs) zero l h = ground arith
LacksPriority-get n (r ∷ rs) (suc i) l h = LacksPriority-get n rs i l.1 h

-- To write a form anew at its priority keeps the priorities apart.
pub Unique-set :
    (rs : List Request) (i : ℕ) (v : Request) {q : Request}
    → get_elem? rs i ≡ some q
    → v.priority ≡ q.priority
    → Unique rs
    → Unique (set rs i v)
Unique-set [] i v h e u = u
Unique-set (r ∷ rs) zero v h e u =
    let same : v.priority ≡ r.priority = ground arith in (rw same u.0, u.1)
Unique-set (r ∷ rs) (suc i) v {q} h e u = (
  LacksPriority-set r.priority rs i v (rw e (LacksPriority-get r.priority rs i {q = q} u.0 h)) u.0,
  Unique-set rs i v {q = q} h e u.1,
)

LacksPriority-unlock :
    (n : ℕ) (rs : List Request) → LacksPriority n rs → LacksPriority n (map unlock rs)
LacksPriority-unlock n [] l = tt
LacksPriority-unlock n (r ∷ rs) l = (l.0, LacksPriority-unlock n rs l.1)

pub Unique-unlock : (rs : List Request) → Unique rs → Unique (map unlock rs)
Unique-unlock [] u = tt
Unique-unlock (r ∷ rs) u = (LacksPriority-unlock r.priority rs u.0, Unique-unlock rs u.1)

-- ===== src/Bus/Done.antt =====
-- A finished request form stays as it is until its master fills it in again; a master that is woken has
-- its form finished (src/simple_bus.cpp, main_action, get_request and the calls of the interface).
use simple_bus_mdu.Prelude.{
  ℕ, zero, suc, ◌≡◌, refl, ap, sym, ◌∙◌, inl, inr, true, some, List, [], ◌∷◌, map, get_elem?, set,
  All, All-get, All-set, ◌==◌, Bool-cases, arith,
}
use simple_bus_mdu.Types.{Request}
use simple_bus_mdu.Bus.Forms.{is_finished, is_pending, get_request, unlock}
use simple_bus_mdu.Bus.Requests.{LacksPriority, Unique}

-- Every form of the priority `t` is finished.
abbrev pub DoneIf : ℕ → Request → Type 0
DoneIf t r = r.priority ≡ t → is_finished r.status ≡ true

abbrev pub Done : ℕ → List Request → Type 0
Done t rs = All (DoneIf t) rs

-- A form that the bus may change is pending; so it is not one of those that are finished.
pub pending-DoneIf :
    (t : ℕ) (r v : Request)
    → DoneIf t r
    → is_pending r ≡ true
    → v.priority ≡ r.priority
    → DoneIf t v
pending-DoneIf t r v d p same = λ e. absurd (clash (d (sym same ∙ e)))
  where
    clash : is_finished r.status ≡ true → ⊥
    clash f = ground arith

pub Done-set :
    (t : ℕ) (rs : List Request) (i : ℕ) (v : Request) {r : Request}
    → Done t rs
    → get_elem? rs i ≡ some r
    → is_pending r ≡ true
    → v.priority ≡ r.priority
    → Done t (set rs i v)
Done-set t rs i v {r} d at p same =
    All-set (DoneIf t) rs i v d (pending-DoneIf t r v (All-get (DoneIf t) rs i d at) p same)

pub Done-unlock : (t : ℕ) (rs : List Request) → Done t rs → Done t (map unlock rs)
Done-unlock t [] d = tt
Done-unlock t (r ∷ rs) d = (d.0, Done-unlock t rs d.1)

-- `get_request` may add a form, which is finished.
pub get_request-Done : (t p : ℕ) (rs : List Request) → Done t rs → Done t (get_request rs p).2
unfolding get_request
get_request-Done t p [] d = (λ e. refl, tt)
get_request-Done t p (r ∷ rs) d = elim (Bool-cases (r.priority == p)) [
  | inl e ↦ rw e d
  | inr e ↦ rw e (d.0, get_request-Done t p rs d.1)
]

pub get_request-finished :
    (t : ℕ) (rs : List Request) → Done t rs → is_finished (get_request rs t).1.status ≡ true
unfolding get_request
get_request-finished t [] d = refl
get_request-finished t (r ∷ rs) d = elim (Bool-cases (r.priority == t)) [
  | inl e ↦ rw e (d.0 (ground arith))
  | inr e ↦ rw e (get_request-finished t rs d.1)
]

LacksPriority-Done : (t : ℕ) (rs : List Request) → LacksPriority t rs → Done t rs
LacksPriority-Done t [] l = tt
LacksPriority-Done t (r ∷ rs) l = (λ e. absurd (l.0 e), LacksPriority-Done t rs l.1)

-- The one form of a priority is finished: so are all.
pub finished-Done :
    (rs : List Request) (i : ℕ) {v : Request}
    → Unique rs
    → get_elem? rs i ≡ some v
    → is_finished v.status ≡ true
    → Done v.priority rs
finished-Done [] i u at f = cc
finished-Done (r ∷ rs) zero {v} u at f =
    let same : r ≡ v = cc in
    (λ e. rw same f, LacksPriority-Done v.priority rs (rw (ap (λ x. x.priority) (same)) at u.0))
finished-Done (r ∷ rs) (suc i) {v} u at f =
    (λ e. absurd (apart rs i u.0 at e), finished-Done rs i u.1 at f)
  where
    apart :
        (qs : List Request) (k : ℕ)
        → LacksPriority r.priority qs
        → get_elem? qs k ≡ some v
        → r.priority ≡ v.priority
        → ⊥
    apart [] k l e q = cc
    apart (x ∷ qs) zero l e q = let same : x ≡ v = cc in l.0 (ap (λ y. y.priority) same ∙ sym q)
    apart (x ∷ qs) (suc k) l e q = apart qs k l.1 e q

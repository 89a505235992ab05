-- ===== src/Bus/Sole.antt =====
-- A bus on which one request is pending, at a falling edge: src/simple_bus.cpp, main_action.
use simple_bus_mdu.Prelude.{
  ℕ, zero, suc, ◌+◌, ◌≡◌, refl, ◌⊎◌, true, false, none, some, List, [], ◌∷◌, map, returns,
  get_elem?, set, All, set_same, arith,
}
use simple_bus_mdu.Types.{Request, lock_no}
use simple_bus_mdu.Arbiter.{arbitrate}
use simple_bus_mdu.Bus.Forms.{Bus, is_pending, pending, get_next_request, unlock}

-- No request is pending, at any position.
abbrev pub NonePending : List Request → Type 0
NonePending [] = Unit {0}
NonePending (r ∷ rs) = (is_pending r ≡ false) × NonePending rs

-- No request is pending but, it may be, the one at the position `i`.
abbrev pub OthersIdle : List Request → ℕ → Type 0
OthersIdle [] i = Unit {0}
OthersIdle (r ∷ rs) zero = NonePending rs
OthersIdle (r ∷ rs) (suc i) = (is_pending r ≡ false) × OthersIdle rs i

-- No request holds a lock or asks for one.
abbrev pub NoLocks : List Request → Type 0
NoLocks = All (λ r. r.lock ≡ lock_no)

pub NoLocks-unlock : (rs : List Request) → NoLocks rs → NoLocks (map unlock rs)
NoLocks-unlock [] h = tt
NoLocks-unlock (r ∷ rs) h = (ground arith, NoLocks-unlock rs h.1)

-- The bus has one request to serve, at the position `i`, and it asks for no lock.
pub record Serving {S : Type 0} (b : Bus S) (i : ℕ) (r : Request) : Type 0 where
  pub current : (b.current ≡ none) ⊎ (b.current ≡ some i)
  pub at : get_elem? b.requests i ≡ some r
  pub others : OthersIdle b.requests i
  pub is_due : is_pending r ≡ true
  pub unlocked : r.lock ≡ lock_no
  pub no_locks : NoLocks b.requests

-- The bus has nothing to do; the form at the position `i` is `r`.
pub record Resting {S : Type 0} (b : Bus S) (i : ℕ) (r : Request) : Type 0 where
  pub current : b.current ≡ none
  pub at : get_elem? b.requests i ≡ some r
  pub others : OthersIdle b.requests i
  pub unlocked : r.lock ≡ lock_no
  pub no_locks : NoLocks b.requests

pub NonePending-pending : (k : ℕ) (rs : List Request) → NonePending rs → pending k rs ≡ []
unfolding pending
NonePending-pending k [] h = refl
NonePending-pending k (r ∷ rs) h = rw h.0 (NonePending-pending (suc k) rs h.1)

OthersIdle-pending :
    (k i : ℕ) (rs : List Request) {r : Request}
    → OthersIdle rs i
    → get_elem? rs i ≡ some r
    → is_pending r ≡ true
    → pending k rs ≡ record { pos = k + i; req = r } ∷ []
unfolding pending
OthersIdle-pending k i [] h e p = cc
OthersIdle-pending k zero (q ∷ rs) {r} h e p = ground (arith, NonePending-pending (suc k) rs h)
OthersIdle-pending k (suc i) (q ∷ rs) {r} h e p =
    ground (arith, OthersIdle-pending (suc k) i rs h.1 e p)

pub NonePending-unlock : (rs : List Request) → NonePending rs → NonePending (map unlock rs)
NonePending-unlock [] h = tt
NonePending-unlock (r ∷ rs) h = (h.0, NonePending-unlock rs h.1)

pub OthersIdle-unlock : (rs : List Request) (i : ℕ) → OthersIdle rs i → OthersIdle (map unlock rs) i
OthersIdle-unlock [] i h = tt
OthersIdle-unlock (r ∷ rs) zero h = NonePending-unlock rs h
OthersIdle-unlock (r ∷ rs) (suc i) h = (h.0, OthersIdle-unlock rs i h.1)

pub OthersIdle-set :
    (rs : List Request) (i : ℕ) (v : Request) → OthersIdle rs i → OthersIdle (set rs i v) i
OthersIdle-set [] i v h = tt
OthersIdle-set (r ∷ rs) zero v h = h
OthersIdle-set (r ∷ rs) (suc i) v h = (h.0, OthersIdle-set rs i v h.1)

pub get-unlock :
    (rs : List Request) (i : ℕ) {r : Request}
    → get_elem? rs i ≡ some r
    → r.lock ≡ lock_no
    → get_elem? (map unlock rs) i ≡ some r
get-unlock [] i e l = cc
get-unlock (q ∷ rs) zero e l = ground arith
get-unlock (q ∷ rs) (suc i) e l = get-unlock rs i e l

pub arbitrate_sole :
    (i : ℕ) (r : Request)
    → r.lock ≡ lock_no
    → arbitrate (record { pos = i; req = r } ∷ []) ≡ returns (record { pos = i; req = r })
unfolding arbitrate
arbitrate_sole i r l = ground arith

module _ {S : Type 0} where
  pub next_sole :
      (b : Bus S) (i : ℕ) {r : Request}
      → Serving b i r
      → get_next_request b ≡ returns (record b { current = some i })
  unfolding get_next_request
  next_sole b i {r} s =
      let only = OthersIdle-pending 0 i b.requests s.others s.at s.is_due in
      ground (arith, only, arbitrate_sole i r s.unlocked, set_same b.requests i r s.at)

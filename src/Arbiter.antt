-- ===== src/Arbiter.antt =====
-- The arbiter: src/simple_bus_arbiter.cpp. It picks one of the pending requests.
pub mod Choice
use simple_bus_mdu.Prelude.{
  ℕ, Bool, ◌&&◌, Option, none, some, List, [], ◌∷◌, Outcome, returns, fault, out_of_bounds,
  assert_failed, ltb, ◌==◌, if◌then◌else◌, ◌>>=◌,
}
use simple_bus_mdu.Types.{
  Request, LockStatus, lock_no, lock_set, lock_granted, is_wait, is_set, is_granted,
}

-- An element of `simple_bus_request_vec`: a pointer, as the position of the request in
-- `m_requests`, with the request that it points to.
pub record Ref : Type 0 where
  pub pos : ℕ
  pub req : Request

-- The test of rule 1: a locked burst that is under way.
abbrev pub is_locked_burst : Ref → Bool
is_locked_burst r = is_wait r.req.status && is_set r.req.lock

-- The test of rule 2: the lock was set by the call before.
abbrev pub holds_grant : Ref → Bool
holds_grant r = is_granted r.req.lock

-- `for (...) if (test) return requests[i];`
unfoldable pub find_first : (Ref → Bool) → List Ref → Option Ref
find_first p [] = none
find_first p (r ∷ rs) = if p r then some r else find_first p rs

-- The loop of rule 3, with its assertion.
unfoldable pub least_from : Ref → List Ref → Outcome Ref
least_from best [] = returns best
least_from best (r ∷ rs) =
    let rest = least_from (if ltb r.req.priority best.req.priority then r else best) rs in
    if r.req.priority == best.req.priority then fault assert_failed else rest

abbrev pub granted_if_locked : LockStatus → LockStatus
granted_if_locked lock_no = lock_no
granted_if_locked lock_set = lock_granted
granted_if_locked lock_granted = lock_granted

-- The end of rule 3: `best_request->lock` is written through the pointer.
abbrev pub grant : Ref → Ref
grant r = record r { req = record r.req { lock = granted_if_locked r.req.lock } }

-- `arbitrate`: the pointer that it returns, with the request as it leaves it. An empty vector
-- has no `requests[0]`.
unfoldable pub arbitrate : List Ref → Outcome Ref
unfolding find_first least_from
arbitrate [] = fault out_of_bounds
arbitrate (r ∷ rs) = elim (find_first is_locked_burst (r ∷ rs)) [
  | some x ↦ returns x
  | none ↦ elim (find_first holds_grant (r ∷ rs)) [
    | some x ↦ returns x
    | none ↦ least_from r rs >>= λ best. returns (grant best)
  ]
]

-- ===== src/Arbiter/Choice.antt =====
-- Which request `simple_bus_arbiter::arbitrate` picks: its three rules against a description.
use mathlib.Core.List.{Memᴰ}
use simple_bus_mdu.Prelude.{
  ℕ, ◌≤◌, ◌≡◌, refl, ◌≢◌, inl, inr, Bool, true, false, none, some, List, [], ◌∷◌, ◌++◌, returns,
  ltb, ne→==, All, Bool-cases, Option-cases, arith,
}
use simple_bus_mdu.Types.{wait, lock_no, lock_set, lock_granted}
use simple_bus_mdu.Arbiter.{
  Ref, is_locked_burst, holds_grant, find_first, least_from, grant, arbitrate,
}

-- A locked burst under way.
abbrev pub IsLockedBurst : Ref → Type 0
IsLockedBurst r = (r.req.status ≡ wait) × (r.req.lock ≡ lock_set)

abbrev pub HoldsGrant : Ref → Type 0
HoldsGrant r = r.req.lock ≡ lock_granted

-- `x` is the first element with the property.
pub record IsFirst (P : Ref → Type 0) (q : List Ref) (x : Ref) : Type 0 where
  pub before : List Ref
  pub after : List Ref
  pub split : q ≡ before ++ x ∷ after
  pub none_before : All (λ r. ¬ P r) before
  pub passes : P x

-- `x` is the request `best`, with its lock granted if it is set and as it was if there is none.
pub record IsGranted (best x : Ref) : Type 0 where
  pub same_place : x.pos ≡ best.pos
  pub if_set : best.req.lock ≡ lock_set → x.req ≡ record best.req { lock = lock_granted }
  pub if_unlocked : best.req.lock ≡ lock_no → x.req ≡ best.req

-- No request of the list has the priority `n`.
abbrev pub Lacks : ℕ → List Ref → Type 0
Lacks n = All (λ r. r.req.priority ≢ n)

abbrev pub Distinct : List Ref → Type 0
Distinct [] = Unit {0}
Distinct (r ∷ rs) = Lacks r.req.priority rs × Distinct rs

-- The rules of the arbiter: a locked burst under way goes on; else a granted lock is served; else
-- the least priority number wins, and its lock, if it asked for one, is granted.
pub data Chosen (q : List Ref) : Ref → Type 0 where
  locked : {x : Ref} → IsFirst IsLockedBurst q x → Chosen q x
  granted : {x : Ref} → All (λ r. ¬ IsLockedBurst r) q → IsFirst HoldsGrant q x → Chosen q x
  least :
      {x : Ref} (best : Ref)
      → All (λ r. ¬ IsLockedBurst r) q
      → All (λ r. ¬ HoldsGrant r) q
      → Memᴰ best q
      → All (λ r. best.req.priority ≤ r.req.priority) q
      → IsGranted best x
      → Chosen q x

-- The test `p` finds the property `P`.
record Decides (p : Ref → Bool) (P : Ref → Type 0) : Type 0 where
  sound : (r : Ref) → p r ≡ true → P r
  complete : (r : Ref) → p r ≡ false → ¬ P r

is_locked_burst-Decides : Decides is_locked_burst IsLockedBurst
is_locked_burst-Decides = record {
  sound = λ r e. ground arith;
  complete = λ r e h. ground (arith, h.0, h.1);
}

holds_grant-Decides : Decides holds_grant HoldsGrant
holds_grant-Decides = record { sound = λ r e. ground arith; complete = λ r e h. ground (arith, h) }

grant-IsGranted : (r : Ref) → IsGranted r (grant r)
grant-IsGranted r = record {
  same_place = refl;
  if_set = λ e. rw e refl;
  if_unlocked = λ e. ground arith;
}

module _ (p : Ref → Bool) (P : Ref → Type 0) (decides : Decides p P) where
  find_first-none : (q : List Ref) → find_first p q ≡ none → All (λ r. ¬ P r) q
  unfolding find_first
  find_first-none [] h = tt
  find_first-none (r ∷ rs) h = elim (Bool-cases (p r)) [
    | inl e ↦ absurd (ground arith)
    | inr e ↦ (decides.complete r e, find_first-none rs (ground arith))
  ]

  find_first-IsFirst : (q : List Ref) (x : Ref) → find_first p q ≡ some x → IsFirst P q x
  unfolding find_first
  find_first-IsFirst [] x h = cc
  find_first-IsFirst (r ∷ rs) x h = elim (Bool-cases (p r)) [
    | inl e ↦
        let same : r ≡ x = ground arith in
        record {
          before = [];
          after = rs;
          split = ground arith;
          none_before = tt;
          passes = decides.sound x (rw same at e);
        }
    | inr e ↦
        let later : IsFirst P rs x = find_first-IsFirst rs x (ground arith) in
        record {
          before = r ∷ later.before;
          after = later.after;
          split = cc (later.split);
          none_before = (decides.complete r e, later.none_before);
          passes = later.passes;
        }
  ]

skip_second : {b x y : Ref} {q : List Ref} → Memᴰ b (x ∷ q) → Memᴰ b (x ∷ y ∷ q)
skip_second (Memᴰ.head e) = Memᴰ.head e
skip_second (Memᴰ.tail m) = Memᴰ.tail (Memᴰ.tail m)

least_from_lem :
    (best : Ref) (rs : List Ref)
    → Lacks best.req.priority rs
    → Distinct rs
    → (b : Ref) × (least_from best rs ≡ returns b)
      × Memᴰ b (best ∷ rs)
      × All (λ r. b.req.priority ≤ r.req.priority) (best ∷ rs)
unfolding least_from
least_from_lem best [] lacks distinct = (best, refl, Memᴰ.head refl, omega arith)
least_from_lem best (r ∷ rs) lacks distinct =
    elim (Bool-cases (ltb r.req.priority best.req.priority)) [
      | inl e ↦
          let (b, computed, member, below) = least_from_lem r rs distinct.0 distinct.1 in
          (b, rw (ne→== _ _ lacks.0, e) computed, Memᴰ.tail member, (ground arith, below))
      | inr e ↦
          let (b, computed, member, below) = least_from_lem best rs lacks.1 distinct.1 in
          (
            b,
            rw (ne→== _ _ lacks.0, e) computed,
            skip_second member,
            (below.0, (ground arith, below.1)),
          )
    ]

-- Of a non-empty vector of requests with distinct priorities the arbiter returns one, by its rules:
-- the first locked burst, else the first whose lock is granted, else the one of least priority
-- number, with its lock granted if it is set and as it was if there is none.
pub arbitrate-Chosen :
    (q : List Ref) → q ≢ [] → Distinct q → (x : Ref) × (arbitrate q ≡ returns x) × Chosen q x
unfolding arbitrate
arbitrate-Chosen [] nonempty distinct = absurd (nonempty refl)
arbitrate-Chosen (r ∷ rs) nonempty distinct =
    elim (Option-cases (find_first is_locked_burst (r ∷ rs))) [
      | inr (x, e) ↦ (
        x,
        rw (e, arbitrate),
        locked
            (find_first-IsFirst is_locked_burst IsLockedBurst is_locked_burst-Decides (r ∷ rs) x e),
      )
      | inl e ↦ elim (Option-cases (find_first holds_grant (r ∷ rs))) [
        | inr (x, f) ↦ (
          x,
          rw (e, f, arbitrate),
          granted (find_first-none is_locked_burst IsLockedBurst is_locked_burst-Decides (r ∷ rs) e)
              (find_first-IsFirst holds_grant HoldsGrant holds_grant-Decides (r ∷ rs) x f),
        )
        | inl f ↦
            let (b, computed, member, below) = least_from_lem r rs distinct.0 distinct.1 in
            (
              grant b,
              rw (e, f, computed, arbitrate),
              least b
                  (find_first-none is_locked_burst IsLockedBurst is_locked_burst-Decides (r ∷ rs) e)
                  (find_first-none holds_grant HoldsGrant holds_grant-Decides (r ∷ rs) f) member
                  below (grant-IsGranted b),
            )
      ]
    ]

-- ===== src/Bus/Elaboration.antt =====
-- What the check of `end_of_elaboration` is worth to `get_slave`: src/simple_bus.cpp.
use simple_bus_mdu.Prelude.{
  ℕ, zero, suc, ◌≡◌, true, Option, some, List, [], ◌∷◌, ◌++◌, get_elem?, All, Bool-cases,
  Option-cases, inl, inr, arith,
}
use simple_bus_mdu.Types.{SlaveIf}
use simple_bus_mdu.Bus.Slaves.{
  answers, get_slave, no_overlap, overlaps_none, check_overlaps, end_of_elaboration,
}

module _ {S : Type 0} ⦃slave_if : SlaveIf S⦄ where
  overlaps_none-snoc :
      (t : S) (before : List S) (s : S)
      → overlaps_none t (before ++ s ∷ []) ≡ true
      → (overlaps_none t before ≡ true) × (no_overlap t s ≡ true)
  unfolding overlaps_none
  overlaps_none-snoc t [] s h = ground arith
  overlaps_none-snoc t (b ∷ before) s h = ground (arith, overlaps_none-snoc t before s)

  -- Every slave still to come lies apart from those that have been checked.
  check_overlaps-before :
      (before ss : List S)
      → check_overlaps before ss ≡ true
      → All (λ t. overlaps_none t before ≡ true) ss
  unfolding check_overlaps
  check_overlaps-before before [] h = tt
  check_overlaps-before before (s ∷ ss) h =
      (ground arith, shrink ss (check_overlaps-before (before ++ s ∷ []) ss (ground arith)))
    where
      shrink :
          (ts : List S)
          → All (λ t. overlaps_none t (before ++ s ∷ []) ≡ true) ts
          → All (λ t. overlaps_none t before ≡ true) ts
      shrink [] a = tt
      shrink (t ∷ ts) a = ((overlaps_none-snoc t before s a.0).0, shrink ts a.1)

  -- Any two slaves lie apart.
  abbrev pub Apart : List S → Type 0
  Apart [] = Unit {0}
  Apart (s ∷ ss) = All (λ t. no_overlap t s ≡ true) ss × Apart ss

  pub check_overlaps-Apart : (before ss : List S) → check_overlaps before ss ≡ true → Apart ss
  unfolding check_overlaps
  check_overlaps-Apart before [] h = tt
  check_overlaps-Apart before (s ∷ ss) h =
      let rest : check_overlaps (before ++ s ∷ []) ss ≡ true = ground arith in
      (
        last ss (check_overlaps-before (before ++ s ∷ []) ss rest),
        check_overlaps-Apart (before ++ s ∷ []) ss rest,
      )
    where
      last :
          (ts : List S)
          → All (λ t. overlaps_none t (before ++ s ∷ []) ≡ true) ts
          → All (λ t. no_overlap t s ≡ true) ts
      last [] a = tt
      last (t ∷ ts) a = ((overlaps_none-snoc t before s a.0).1, last ts a.1)

  not_both : (s t : S) (a : ℕ) → no_overlap t s ≡ true → answers s a ≡ true → answers t a ≡ true → ⊥
  not_both s t a apart hs ht = ground arith

  pub get_slave-Apart :
      (ss : List S) (i a : ℕ) {s : S}
      → Apart ss
      → get_elem? ss i ≡ some s
      → answers s a ≡ true
      → get_slave ss a ≡ some (i, s)
  unfolding get_slave
  get_slave-Apart [] i a apart h hit = cc
  get_slave-Apart (t ∷ ss) zero a apart h hit = ground arith
  get_slave-Apart (t ∷ ss) (suc i) a {s} apart h hit =
      ground (arith, get_slave-Apart ss i a apart.1 h hit, not_both t s a (far ss i apart.0 h))
    where
      far :
          (ts : List S) (j : ℕ)
          → All (λ u. no_overlap u t ≡ true) ts
          → get_elem? ts j ≡ some s
          → no_overlap s t ≡ true
      far [] j all e = cc
      far (u ∷ ts) zero all e = ground arith
      far (u ∷ ts) (suc j) all e = far ts j all.1 e

  here :
      (t : S) (ss : List S) (i : ℕ) (s : S) (a : ℕ)
      → answers t a ≡ true
      → ◌≡◌ {A = Option (ℕ × S)} (some (0, t)) (some (i, s))
      → (get_elem? (t ∷ ss) i ≡ some s) × (answers s a ≡ true)
  here t ss zero s a e p = ground arith
  here t ss (suc i) s a e p = absurd (ground arith)

  there :
      (t : S) (ss : List S) (i j : ℕ) (s u : S) (a : ℕ)
      → (get_elem? ss j ≡ some u) × (answers u a ≡ true)
      → ◌≡◌ {A = Option (ℕ × S)} (some (suc j, u)) (some (i, s))
      → (get_elem? (t ∷ ss) i ≡ some s) × (answers s a ≡ true)
  there t ss zero j s u a at p = absurd (ground arith)
  there t ss (suc i) j s u a at p = ground arith

  -- What `get_slave` returns stands at that position and answers at the address.
  pub get_slave-some :
      (ss : List S) (a : ℕ) {i : ℕ} {s : S}
      → get_slave ss a ≡ some (i, s)
      → (get_elem? ss i ≡ some s) × (answers s a ≡ true)
  unfolding get_slave
  get_slave-some [] a h = cc
  get_slave-some (t ∷ ss) a {i} {s} h = elim (Bool-cases (answers t a)) [
    | inl e ↦ here t ss i s a e (rw (e, get_slave) at h)
    | inr e ↦ elim (Option-cases (get_slave ss a)) [
      | inl f ↦ absurd (ground arith)
      | inr ((j, u), f) ↦
          there t ss i j s u a (get_slave-some ss a {i = j} {s = u} f) (rw (e, f, get_slave) at h)
    ]
  ]

  -- Behind a check that passed, `get_slave` finds the slave that answers at the address, whichever
  -- place it has among the slaves.
  pub get_slave-routes :
      (ss : List S) (i a : ℕ) {s : S}
      → end_of_elaboration ss ≡ true
      → get_elem? ss i ≡ some s
      → answers s a ≡ true
      → get_slave ss a ≡ some (i, s)
  unfolding end_of_elaboration
  get_slave-routes ss i a checked h hit =
      get_slave-Apart ss i a (check_overlaps-Apart [] ss checked) h hit

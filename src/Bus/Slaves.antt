-- ===== src/Bus/Slaves.antt =====
-- How the bus finds a slave, and its check of the slaves' addresses: src/simple_bus.cpp (get_slave,
-- end_of_elaboration).
use simple_bus_mdu.Prelude.{
  ℕ, suc, Bool, true, ◌&&◌, ◌||◌, Option, none, some, List, [], ◌∷◌, ◌++◌, ltb, leb, if◌then◌else◌,
}
use simple_bus_mdu.Types.{SlaveIf}

module _ {S : Type 0} ⦃slave_if : SlaveIf S⦄ where
  -- Does the slave answer at this address?
  abbrev pub answers : S → ℕ → Bool
  answers s address = leb (slave_if.start_address s) address && leb address (slave_if.end_address s)

  -- `get_slave`: the position of the first slave that answers, with that slave.
  unfoldable pub get_slave : List S → ℕ → Option (ℕ × S)
  get_slave [] address = none
  get_slave (s ∷ ss) address =
      let rest : Option (ℕ × S) = elim (get_slave ss address) [
        | none ↦ none
        | some (i, t) ↦ some (suc i, t)
      ] in
      if answers s address then some (0, s) else rest

  -- The two slaves have no address in common.
  abbrev pub no_overlap : S → S → Bool
  no_overlap s t =
      ltb (slave_if.end_address s) (slave_if.start_address t)
      || ltb (slave_if.end_address t) (slave_if.start_address s)

  unfoldable pub overlaps_none : S → List S → Bool
  overlaps_none s [] = true
  overlaps_none s (t ∷ ts) = no_overlap s t && overlaps_none s ts

  unfoldable pub check_overlaps : List S → List S → Bool
  unfolding overlaps_none
  check_overlaps before [] = true
  check_overlaps before (s ∷ ss) = overlaps_none s before && check_overlaps (before ++ s ∷ []) ss

  -- `end_of_elaboration`: false where the source prints an error and calls `exit(0)`.
  unfoldable pub end_of_elaboration : List S → Bool
  unfolding check_overlaps
  end_of_elaboration ss = check_overlaps [] ss

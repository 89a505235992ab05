-- ===== src/Bus/Mounted.antt =====
-- A slave in its place among the slaves of a bus, through what happens to them: src/simple_bus.cpp,
-- get_slave and end_of_elaboration.
use simple_bus_mdu.Prelude.{
  ℕ, zero, suc, ◌≡◌, true, some, List, [], ◌∷◌, map, get_elem?, set, All, get_elem?-set_self,
  get_elem?-lt, arith,
}
use simple_bus_mdu.Types.{SlaveIf, KeepsRange}
use simple_bus_mdu.Bus.Slaves.{answers, get_slave, no_overlap, end_of_elaboration}
use simple_bus_mdu.Bus.Elaboration.{Apart, get_slave-Apart, check_overlaps-Apart}

module _ {S : Type 0} ⦃slave_if : SlaveIf S⦄ where
  abbrev pub SameRange : S → S → Type 0
  SameRange s t =
      (slave_if.start_address t ≡ slave_if.start_address s)
      × (slave_if.end_address t ≡ slave_if.end_address s)

  -- The slave stands at the position `k`, and no two slaves share an address.
  pub record Mounted (ss : List S) (k : ℕ) (s : S) : Type 0 where
    pub apart : Apart ss
    pub at : get_elem? ss k ≡ some s

  far-left :
      (ss : List S) (k : ℕ) (s t u : S)
      → SameRange s t
      → All (λ v. no_overlap v u ≡ true) ss
      → get_elem? ss k ≡ some s
      → All (λ v. no_overlap v u ≡ true) (set ss k t)
  far-left [] k s t u same all e = tt
  far-left (v ∷ ss) zero s t u same all e = (ground arith, all.1)
  far-left (v ∷ ss) (suc k) s t u same all e = (all.0, far-left ss k s t u same all.1 e)

  far-right :
      (ss : List S) (s t : S)
      → SameRange s t
      → All (λ v. no_overlap v s ≡ true) ss
      → All (λ v. no_overlap v t ≡ true) ss
  far-right [] s t same all = tt
  far-right (v ∷ ss) s t same all = (ground arith, far-right ss s t same all.1)

  Apart-set :
      (ss : List S) (k : ℕ) (s t : S)
      → SameRange s t
      → Apart ss
      → get_elem? ss k ≡ some s
      → Apart (set ss k t)
  Apart-set [] k s t same a e = tt
  Apart-set (u ∷ ss) zero s t same a e =
      let here : u ≡ s = ground arith in (far-right ss u t (rw here same) a.0, a.1)
  Apart-set (u ∷ ss) (suc k) s t same a e =
      (far-left ss k s t u same a.0 e, Apart-set ss k s t same a.1 e)

  -- The slave changes and keeps its addresses.
  pub Mounted-set :
      (ss : List S) (k : ℕ) (s t : S) → Mounted ss k s → SameRange s t → Mounted (set ss k t) k t
  Mounted-set ss k s t m same = record {
    apart = Apart-set ss k s t same m.apart m.at;
    at = get_elem?-set_self ss k t (get_elem?-lt ss k m.at);
  }

  -- What passed the check of `end_of_elaboration` is mounted.
  pub checked-Mounted :
      (ss : List S) (k : ℕ) {s : S}
      → end_of_elaboration ss ≡ true
      → get_elem? ss k ≡ some s
      → Mounted ss k s
  unfolding end_of_elaboration
  checked-Mounted ss k checked e = record { apart = check_overlaps-Apart [] ss checked; at = e }

  pub Mounted-found :
      (ss : List S) (k a : ℕ) {s : S}
      → Mounted ss k s
      → answers s a ≡ true
      → get_slave ss a ≡ some (k, s)
  Mounted-found ss k a m hit = get_slave-Apart ss k a m.apart m.at hit

  module _ (keeps : KeepsRange slave_if) where
    far-posedge :
        (ss : List S) (u : S)
        → All (λ v. no_overlap v u ≡ true) ss
        → All (λ v. no_overlap v (slave_if.posedge u) ≡ true) (map slave_if.posedge ss)
    far-posedge [] u all = tt
    far-posedge (v ∷ ss) u all = (
      ground (
        arith,
        keeps.posedge_start u,
        keeps.posedge_end u,
        keeps.posedge_start v,
        keeps.posedge_end v,
      ),
      far-posedge ss u all.1,
    )

    Apart-posedge : (ss : List S) → Apart ss → Apart (map slave_if.posedge ss)
    Apart-posedge [] a = tt
    Apart-posedge (u ∷ ss) a = (far-posedge ss u a.0, Apart-posedge ss a.1)

    get-posedge :
        (ss : List S) (k : ℕ) {s : S}
        → get_elem? ss k ≡ some s
        → get_elem? (map slave_if.posedge ss) k ≡ some (slave_if.posedge s)
    get-posedge [] k e = cc
    get-posedge (u ∷ ss) zero e = ground arith
    get-posedge (u ∷ ss) (suc k) e = get-posedge ss k e

    -- A rising edge of the clock reaches every slave.
    pub Mounted-posedge :
        (ss : List S) (k : ℕ) {s : S}
        → Mounted ss k s
        → Mounted (map slave_if.posedge ss) k (slave_if.posedge s)
    Mounted-posedge ss k m = record { apart = Apart-posedge ss m.apart; at = get-posedge ss k m.at }

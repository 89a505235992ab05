-- ===== src/Simulator/Operations.antt =====
-- The loads and stores of MipsCpp/memoria.cpp and those of include/mem_mips.h, which was made of it.
use simple_bus_mdu.Prelude.{
  ℕ, ◌+◌, ◌/◌, ◌%◌, ◌^◌, ◌<◌, ◌≡◌, refl, sym, ap, subst, ◌∙◌, inl, inr, List, All, All-get, Outcome,
  returns, fault, get_elem?, set, ◌==◌, if◌then◌else◌, ◌>>=◌, arith, Bool-cases, Option-cases,
}
use simple_bus_mdu.Types.{u32}
use simple_bus_mdu.MemMips
use simple_bus_mdu.MemMips.{MemMips, new, shift_right}
use simple_bus_mdu.MemMips.Bytes.{signed_byte, unsigned_byte, signed_half, unsigned_half}
use simple_bus_mdu.Simulator.Memory
use simple_bus_mdu.Simulator.Memory.{mem_size, check_address_range, word}
use simple_bus_mdu.Prelude.Int.{pos}

-- A memory of the bus with the array of the simulator.
abbrev pub behind : List ℕ → MemMips
behind mem = record (new mem (pos 0)) { size = mem_size }

-- What a store of the simulator leaves is what the memory of the bus holds after its own.
abbrev pub mem_of : Outcome MemMips → Outcome (List ℕ)
mem_of call = call >>= λ m. returns m.mem

pub record SameOperations (mem : List ℕ) (address kte dado : ℕ) : Type 0 where
  pub of_lb : Memory.lb mem address kte ≡ MemMips.lbu (behind mem) address kte
  pub of_lh : Memory.lh mem address kte ≡ (
      if u32 (address + kte) % 2 == 0
      then MemMips.lhu (behind mem) address kte
      else MemMips.lh (behind mem) address kte)
  pub of_lw : Memory.lw mem address kte ≡ MemMips.lw (behind mem) address kte
  pub of_sb :
      Memory.sb mem address (kte % 2 ^ 5) dado ≡ mem_of (MemMips.sb (behind mem) address kte dado)
  pub of_sh :
      Memory.sh mem address (kte % 2 ^ 5) dado ≡ mem_of (MemMips.sh (behind mem) address kte dado)
  pub of_sw :
      Memory.sw mem address (kte % 2 ^ 5) dado ≡ mem_of (MemMips.sw (behind mem) address kte dado)

store_same :
    (checked : Outcome {0} Unit) (found : Outcome ℕ) (mem : List ℕ) (i : ℕ) (f : ℕ → ℕ)
    → (checked >>= λ u. found >>= λ w. returns (set mem i (f w)))
      ≡ mem_of (
          checked >>= (λ u. found) >>= λ w. returns (record (behind mem) { mem = set mem i (f w) }))
store_same (fault e) found mem i f = refl
store_same (returns u) (fault e) mem i f = refl
store_same (returns u) (returns w) mem i f = refl

load_same :
    (found : Outcome ℕ) (f g : ℕ → ℕ)
    → ((w : ℕ) → found ≡ returns w → f w ≡ g w)
    → (found >>= λ w. returns (f w)) ≡ (found >>= λ w. returns (g w))
load_same (fault e) f g h = refl
load_same (returns w) f g h = ap returns (h w refl)

even_load_same :
    (checked : Outcome {0} Unit) (found : Outcome ℕ) (f g : ℕ → ℕ)
    → ((w : ℕ) → found ≡ returns w → f w ≡ g w)
    → (checked >>= λ u. found >>= λ w. returns (f w))
      ≡ (checked >>= λ u. found >>= λ w. returns (g w))
even_load_same (fault e) found f g h = refl
even_load_same (returns u) found f g h = load_same found f g h

checked_load_same :
    (checked : Outcome {0} Unit) (found : Outcome ℕ) (f g : ℕ → ℕ)
    → ((w : ℕ) → found ≡ returns w → f w ≡ g w)
    → (checked >>= λ u. found >>= λ w. returns (f w))
      ≡ (checked >>= (λ u. found) >>= λ w. returns (g w))
checked_load_same (fault e) found f g h = refl
checked_load_same (returns u) found f g h = load_same found f g h

word-lt : (mem : List ℕ) (i w : ℕ) → All (λ v. v < 2 ^ 32) mem → word mem i ≡ returns w → w < 2 ^ 32
unfolding word
word-lt mem i w h e = elim (Option-cases (get_elem? mem i)) [
  | inl missing ↦ absurd cc
  | inr (v, found) ↦
      let same : v ≡ w = cc in
      subst (λ x. x < 2 ^ 32) same (All-get (λ x. x < 2 ^ 32) mem i h found)
]

-- For every address, within the array or not, the simulator's `lw` does what that of `mem_mips` does on
-- the same array of 32-bit words, faults included, and so do its stores once the offset is reduced to five
-- bits, since those of `mem_mips` keep no more of it; its `lb` gives what `lbu` of `mem_mips` gives,
-- without the sign, and its `lh` what `lhu` gives, but for -1 where the address is odd.
pub operations-same :
    (mem : List ℕ) (address kte dado : ℕ)
    → All (λ w. w < 2 ^ 32) mem
    → SameOperations mem address kte dado
unfolding Memory.lb Memory.lh Memory.lw Memory.sb Memory.sh Memory.sw Memory.put_word word
    check_address_range MemMips.lbu MemMips.lhu MemMips.lh MemMips.lw MemMips.sb MemMips.sh
    MemMips.sw MemMips.change MemMips.checked_word MemMips.check_address_range MemMips.word_of
operations-same mem address kte dado words =
    let a : ℕ = u32 (address + kte) in
    let checked = check_address_range a in
    let found = word mem (a / 4) in
    let s : ℕ = u32 (address + kte % 2 ^ 5) in
    let checked_s = check_address_range s in
    let found_s = word mem (s / 4) in
    record {
      of_lb = checked_load_same checked found _ _ (λ w e.
          let small = word-lt mem (a / 4) w words e in
          signed_byte w (a % 4) small (omega arith)
          ∙ sym (unsigned_byte w (a % 4) small (omega arith)));
      of_lh = elim (Bool-cases (a % 2 == 0)) [
        | inl even ↦ rw even (
            even_load_same checked found _ _ (λ w e.
              let small = word-lt mem (a / 4) w words e in
              signed_half w (a / 2 % 2) small (omega arith)
              ∙ sym (unsigned_half w (a / 2 % 2) small (omega arith))))
        | inr odd ↦ rw odd refl
      ];
      of_lw = refl;
      of_sb = store_same checked_s found_s mem (s / 4) _;
      of_sh = store_same checked_s found_s mem (s / 4) _;
      of_sw = store_same checked_s found_s mem (s / 4) _;
    }

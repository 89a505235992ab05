-- ===== src/MemMips/Bytes.antt =====
-- The memory of include/mem_mips.h as an array of bytes, the least significant one of a word first:
-- what its loads give and its stores change.
use simple_bus_mdu.Prelude.{
  ℕ, zero, suc, ◌+◌, ◌-◌, ◌*◌, ◌/◌, ◌%◌, ◌^◌, ◌<◌, ◌≡◌, refl, ap, subst, ◌∙◌, ◌⊎◌, inl, inr, All,
  All-get, returns, length, get_elem?-some, ◌==◌, if◌then◌else◌, arith, Bool-cases, ==→eq, word_at,
}
use simple_bus_mdu.Types.{u32}
use simple_bus_mdu.MemMips.{
  MemMips, shift_right, int8, int16, check_address_range, word_of, checked_word, lb, lh, lw, lbu,
  lhu,
}

-- The array has `size` words.
pub record IsWellFormed (m : MemMips) : Type 0 where
  pub sized : length m.mem ≡ m.size
  pub words : All (λ w. w < 2 ^ 32) m.mem

-- The address of a byte of the array.
abbrev pub Holds : MemMips → ℕ → Type 0
Holds m a = (a < 2 ^ 32) × (a / 4 < m.size)

-- The byte `k` of a word.
abbrev pub byte_of : ℕ → ℕ → ℕ
byte_of w zero = w % 256
byte_of w (suc zero) = w / 256 % 256
byte_of w (suc (suc zero)) = w / 65536 % 256
byte_of w (suc (suc (suc k))) = w / 16777216 % 256

-- The byte at an address.
abbrev pub byte_at : MemMips → ℕ → ℕ
byte_at m a = byte_of (word_at m.mem (a / 4)) (a % 4)

-- The remainder of an address.
pub four_cases : (a : ℕ) → (a % 4 ≡ 0) ⊎ ((a % 4 ≡ 1) ⊎ ((a % 4 ≡ 2) ⊎ (a % 4 ≡ 3)))
four_cases a = omega arith

pub u32-plus_zero : (a : ℕ) → a < 2 ^ 32 → u32 (a + 0) ≡ a
u32-plus_zero a h = omega arith

-- The word of an address is there, and is 32 bits wide.
pub checked_word-word_at :
    (m : MemMips) (a : ℕ)
    → IsWellFormed m
    → Holds m a
    → (checked_word m a ≡ returns (word_at m.mem (a / 4))) × (word_at m.mem (a / 4) < 2 ^ 32)
unfolding checked_word check_address_range word_of
checked_word-word_at m a v h =
    let (w, e) = get_elem?-some m.mem (a / 4) (omega (arith, v.sized, h.1)) in
    let small = All-get (λ x. x < 2 ^ 32) m.mem (a / 4) v.words e in ground arith

pub signed_byte : (w k : ℕ) → w < 2 ^ 32 → k < 4 → shift_right w (8 * k) % 2 ^ 8 ≡ byte_of w k
unfolding shift_right
signed_byte w zero h lt = ground arith
signed_byte w (suc zero) h lt = ground arith
signed_byte w (suc (suc zero)) h lt = ground arith
signed_byte w (suc (suc (suc zero))) h lt = ground arith
signed_byte w (suc (suc (suc (suc k)))) h lt = absurd (omega arith)

pub unsigned_byte : (w k : ℕ) → w < 2 ^ 32 → k < 4 → w / 2 ^ (8 * k) % 2 ^ 8 ≡ byte_of w k
unsigned_byte w zero h lt = omega arith
unsigned_byte w (suc zero) h lt = omega arith
unsigned_byte w (suc (suc zero)) h lt = omega arith
unsigned_byte w (suc (suc (suc zero))) h lt = omega arith
unsigned_byte w (suc (suc (suc (suc k)))) h lt = absurd (omega arith)

abbrev pub four_bytes : MemMips → ℕ → ℕ
four_bytes m a =
    byte_at m a + 256 * byte_at m (a + 1) + 65536 * byte_at m (a + 2) + 16777216 * byte_at m (a + 3)

-- What the loads give, in terms of the bytes from the address `a` on.
pub record Loads (m : MemMips) (addr kte a : ℕ) : Type 0 where
  pub of_lb : lb m addr kte ≡ returns (int8 (byte_at m a))
  pub of_lbu : lbu m addr kte ≡ returns (byte_at m a)
  pub of_lh :
      lh m addr kte
      ≡ returns (if a % 2 == 0 then int16 (byte_at m a + 256 * byte_at m (a + 1)) else 2 ^ 32 - 1)
  pub of_lhu :
      lhu m addr kte
      ≡ returns (if a % 2 == 0 then byte_at m a + 256 * byte_at m (a + 1) else 2 ^ 16 - 1)
  pub of_lw : lw m addr kte ≡ returns (four_bytes m (a / 4 * 4))

in_range : (m : MemMips) (a : ℕ) → Holds m a → check_address_range m a ≡ returns tt
unfolding check_address_range
in_range m a h = ground (arith, h.1)

word_of-word_at :
    (m : MemMips) (a : ℕ)
    → IsWellFormed m
    → Holds m a
    → (word_of m a ≡ returns (word_at m.mem (a / 4)))
unfolding word_of
word_of-word_at m a v h =
    let (w, e) = get_elem?-some m.mem (a / 4) (omega (arith, v.sized, h.1)) in ground arith

pub signed_half :
    (w k : ℕ)
    → w < 2 ^ 32
    → k < 2
    → shift_right w (8 * (k * 2)) % 2 ^ 16 ≡ byte_of w (2 * k) + 256 * byte_of w (2 * k + 1)
unfolding shift_right
signed_half w zero h lt = ground arith
signed_half w (suc zero) h lt = ground arith
signed_half w (suc (suc k)) h lt = absurd (omega arith)

pub unsigned_half :
    (w k : ℕ)
    → w < 2 ^ 32
    → k < 2
    → w / 2 ^ (8 * (k * 2)) % 2 ^ 16 ≡ byte_of w (2 * k) + 256 * byte_of w (2 * k + 1)
unsigned_half w zero h lt = omega arith
unsigned_half w (suc zero) h lt = omega arith
unsigned_half w (suc (suc k)) h lt = absurd (omega arith)

next_byte :
    (m : MemMips) (a k i : ℕ)
    → a % 4 ≡ k
    → k + i < 4
    → byte_at m (a + i) ≡ byte_of (word_at m.mem (a / 4)) (k + i)
next_byte m a k i e lt =
    let same : (a + i) / 4 ≡ a / 4 = omega arith in
    let there : (a + i) % 4 ≡ k + i = omega arith in rw (same, there)

bytes_in_half :
    (m : MemMips) (a : ℕ)
    → a % 2 ≡ 0
    → byte_of (word_at m.mem (a / 4)) (2 * (a / 2 % 2))
        + 256 * byte_of (word_at m.mem (a / 4)) (2 * (a / 2 % 2) + 1)
      ≡ byte_at m a + 256 * byte_at m (a + 1)
bytes_in_half m a even =
    let k : ℕ = 2 * (a / 2 % 2) in
    let here : a % 4 ≡ k = omega arith in rw (here, next_byte m a k 1 here (omega arith))

word_at-four_bytes :
    (m : MemMips) (a : ℕ)
    → a % 4 ≡ 0
    → word_at m.mem (a / 4) < 2 ^ 32
    → word_at m.mem (a / 4) ≡ four_bytes m a
word_at-four_bytes m a aligned small =
    rw
      (
        aligned,
        next_byte m a 0 1 aligned (omega arith),
        next_byte m a 0 2 aligned (omega arith),
        next_byte m a 0 3 aligned (omega arith),
      )
      (omega arith)

-- At an address that a well-formed memory holds, `lb` and `lbu` give its byte, `lh` and `lhu` the two
-- bytes from it on if it is even and -1 if not, and `lw` the four bytes of the word that contains it;
-- `lb` and `lh` extend the sign.
pub Loads-byte_at :
    (m : MemMips) (addr kte : ℕ)
    → IsWellFormed m
    → Holds m (u32 (addr + kte))
    → Loads m addr kte (u32 (addr + kte))
unfolding lb lbu lh lhu lw
Loads-byte_at m addr kte v h =
    let a : ℕ = u32 (addr + kte) in
    let w : ℕ = word_at m.mem (a / 4) in
    let (e, small) = checked_word-word_at m a v h in
    let here = word_of-word_at m a v h in
    let ranged = in_range m a h in
    record {
      of_lb = rw (e, signed_byte w (a % 4) small (omega arith)) refl;
      of_lbu = rw (e, unsigned_byte w (a % 4) small (omega arith)) refl;
      of_lh = elim (Bool-cases (a % 2 == 0)) [
        | inl even ↦
            rw
              (
                ranged,
                even,
                here,
                signed_half w (a / 2 % 2) small (omega arith),
                bytes_in_half m a (==→eq (a % 2) 0 even),
              )
              refl
        | inr odd ↦ rw (ranged, odd) refl
      ];
      of_lhu = elim (Bool-cases (a % 2 == 0)) [
        | inl even ↦
            rw
              (
                ranged,
                even,
                here,
                unsigned_half w (a / 2 % 2) small (omega arith),
                bytes_in_half m a (==→eq (a % 2) 0 even),
              )
              refl
        | inr odd ↦ rw (ranged, odd) refl
      ];
      of_lw =
          let same : a / 4 * 4 / 4 ≡ a / 4 = omega arith in
          e
          ∙ ap returns (
              subst (λ i. word_at m.mem i ≡ four_bytes m (a / 4 * 4)) same
                (word_at-four_bytes m (a / 4 * 4) (omega arith) (rw same small)));
    }

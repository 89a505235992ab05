-- ===== src/Simulator/Memory.antt =====
-- The memory of the simulator: MipsCpp/memoria.cpp, MipsCpp/memdef.h. The host is little endian.
use simple_bus_mdu.Prelude.{
  ℕ, ◌+◌, ◌-◌, ◌*◌, ◌/◌, ◌%◌, ◌^◌, none, some, List, Outcome, returns, fault, exit_program,
  out_of_bounds, get_elem?, set, ltb, ◌==◌, if◌then◌else◌, ◌>>=◌,
}
use simple_bus_mdu.Types.{u32}
use simple_bus_mdu.MemMips.{shift_right, put_field}

-- `MEM_SIZE`
abbrev pub mem_size : ℕ
mem_size = 20000

-- `(address >> 2) > MEM_SIZE` ends the program.
unfoldable pub check_address_range : ℕ → Outcome {0} Unit
check_address_range address = if ltb mem_size (address / 4) then fault exit_program else returns tt

-- `mem[i]` read and written; a word outside the array is undefined behaviour.
unfoldable pub word : List ℕ → ℕ → Outcome ℕ
word mem i = elim (get_elem? mem i) [ none ↦ fault out_of_bounds | some w ↦ returns w ]

unfoldable pub put_word : List ℕ → ℕ → (ℕ → ℕ) → Outcome (List ℕ)
unfolding word
put_word mem i f = word mem i >>= λ w. returns (set mem i (f w))

unfoldable pub lb : List ℕ → ℕ → ℕ → Outcome ℕ
unfolding check_address_range word
lb mem address kte =
    let tmp : ℕ = u32 (address + kte) in
    check_address_range tmp >>= λ u.
    word mem (tmp / 4) >>= λ w. returns (shift_right w (8 * (tmp % 4)) % 2 ^ 8)

-- A misaligned halfword: a message and -1.
unfoldable pub lh : List ℕ → ℕ → ℕ → Outcome ℕ
unfolding check_address_range word
lh mem address kte =
    let tmp : ℕ = u32 (address + kte) in
    check_address_range tmp >>= λ u.
    if tmp % 2 == 0
    then (word mem (tmp / 4) >>= λ w. returns (shift_right w (8 * (tmp / 2 % 2 * 2)) % 2 ^ 16))
    else returns (2 ^ 32 - 1)

unfoldable pub lw : List ℕ → ℕ → ℕ → Outcome ℕ
unfolding check_address_range word
lw mem address kte =
    let tmp : ℕ = u32 (address + kte) in check_address_range tmp >>= λ u. word mem (tmp / 4)

-- The stores write through a pointer into the word of the address.
unfoldable pub sb : List ℕ → ℕ → ℕ → ℕ → Outcome (List ℕ)
unfolding check_address_range put_word
sb mem address kte dado =
    let tmp : ℕ = u32 (address + kte) in
    check_address_range tmp >>= λ u.
    put_word mem (tmp / 4) (λ w. put_field 8 (8 * (tmp % 4)) w dado)

-- A misaligned halfword is reported, and stored all the same.
unfoldable pub sh : List ℕ → ℕ → ℕ → ℕ → Outcome (List ℕ)
unfolding check_address_range put_word
sh mem address kte dado =
    let tmp : ℕ = u32 (address + kte) in
    check_address_range tmp >>= λ u.
    put_word mem (tmp / 4) (λ w. put_field 16 (16 * (tmp / 2 % 2)) w dado)

unfoldable pub sw : List ℕ → ℕ → ℕ → ℕ → Outcome (List ℕ)
unfolding check_address_range put_word
sw mem address kte dado =
    let tmp : ℕ = u32 (address + kte) in
    check_address_range tmp >>= λ u. put_word mem (tmp / 4) (λ w. dado)

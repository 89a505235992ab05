-- ===== src/MemMips.antt =====
-- The memory of the MIPS behind the bus: include/mem_mips.h. The host is little endian.
pub mod Const
pub mod Bytes
pub mod Stores
pub mod Timing
pub mod Limits
use Const
use simple_bus_mdu.Prelude.{
  ℕ, zero, suc, ◌+◌, ◌-◌, ◌*◌, ◌/◌, ◌%◌, ◌^◌, Bool, true, false, Option, none, some, List, Outcome,
  returns, fault, exit_program, out_of_bounds, get_elem?, set, length, ltb, ◌==◌, if◌then◌else◌,
  ◌>>=◌, [], ◌∷◌,
}
use simple_bus_mdu.Prelude.Int.{ℤ, pos, negsuc}
use simple_bus_mdu.Types.{Status, ok, wait, u32, SlaveIf}

-- `struct mem_mips`. Its words and `addr_reg` are 32-bit patterns; so is `op_type_reg`, which a cast
-- may set to any number.
pub record MemMips : Type 0 where
  pub mem : List ℕ
  pub size : ℕ
  pub addr_reg : ℕ
  pub op_type_reg : ℕ
  pub wait_states : ℤ
  pub wait_left : ℤ

-- The constructor, with the words that the new array happens to hold.
abbrev pub new : List ℕ → ℤ → MemMips
new found states = record {
  mem = found;
  size = length found;
  addr_reg = 0;
  op_type_reg = Const.word;
  wait_states = states;
  wait_left = negsuc 0;
}

abbrev pub less_one : ℤ → ℤ
less_one (pos zero) = negsuc 0
less_one (pos (suc n)) = pos n
less_one (negsuc n) = negsuc n

-- `update_wait`, at each rising edge
abbrev pub update_wait : MemMips → MemMips
update_wait m = record m { wait_left = less_one m.wait_left }

-- `word >> n` for an `int32_t`
unfoldable pub shift_right : ℕ → ℕ → ℕ
shift_right w n = if ltb w (2 ^ 31) then w / 2 ^ n else 2 ^ 32 - 1 - (2 ^ 32 - 1 - w) / 2 ^ n

-- An `int8_t` and an `int16_t`, as the `int` that they are converted to.
abbrev pub int8 : ℕ → ℕ
int8 b = if ltb b (2 ^ 7) then b else b + (2 ^ 32 - 2 ^ 8)

abbrev pub int16 : ℕ → ℕ
int16 h = if ltb h (2 ^ 15) then h else h + (2 ^ 32 - 2 ^ 16)

-- `(addr >> 2) > size` ends the program.
unfoldable pub check_address_range : MemMips → ℕ → Outcome {0} Unit
check_address_range m addr = if ltb m.size (addr / 4) then fault exit_program else returns tt

-- `mem[tmp >> 2]` read and written; a word outside the array is undefined behaviour.
unfoldable pub word_of : MemMips → ℕ → Outcome ℕ
word_of m tmp = elim (get_elem? m.mem (tmp / 4)) [ none ↦ fault out_of_bounds | some w ↦ returns w ]

-- The word that contains the address, once the address is checked.
unfoldable pub checked_word : MemMips → ℕ → Outcome ℕ
unfolding check_address_range word_of
checked_word m tmp = check_address_range m tmp >>= λ u. word_of m tmp

unfoldable pub lb : MemMips → ℕ → ℕ → Outcome ℕ
unfolding checked_word
lb m addr kte =
    let tmp : ℕ = u32 (addr + kte) in
    checked_word m tmp >>= λ w. returns (int8 (shift_right w (8 * (tmp % 4)) % 2 ^ 8))

-- A misaligned halfword: a message and -1.
unfoldable pub lh : MemMips → ℕ → ℕ → Outcome ℕ
unfolding check_address_range word_of
lh m addr kte =
    let tmp : ℕ = u32 (addr + kte) in
    check_address_range m tmp >>= λ u.
    if tmp % 2 == 0
    then (word_of m tmp >>= λ w. returns (int16 (shift_right w (8 * (tmp / 2 % 2 * 2)) % 2 ^ 16)))
    else returns (2 ^ 32 - 1)

unfoldable pub lw : MemMips → ℕ → ℕ → Outcome ℕ
unfolding checked_word
lw m addr kte = checked_word m (u32 (addr + kte))

unfoldable pub lbu : MemMips → ℕ → ℕ → Outcome ℕ
unfolding checked_word
lbu m addr kte =
    let tmp : ℕ = u32 (addr + kte) in
    checked_word m tmp >>= λ w. returns (w / 2 ^ (8 * (tmp % 4)) % 2 ^ 8)

-- The result -1 becomes a `uint16_t`.
unfoldable pub lhu : MemMips → ℕ → ℕ → Outcome ℕ
unfolding check_address_range word_of
lhu m addr kte =
    let tmp : ℕ = u32 (addr + kte) in
    check_address_range m tmp >>= λ u.
    if tmp % 2 == 0
    then (word_of m tmp >>= λ w. returns (w / 2 ^ (8 * (tmp / 2 % 2 * 2)) % 2 ^ 16))
    else returns (2 ^ 16 - 1)

-- The field of `n` bits at the bit `i` of a word, overwritten.
abbrev pub put_field : ℕ → ℕ → ℕ → ℕ → ℕ
put_field n i w d = w - w / 2 ^ i % 2 ^ n * 2 ^ i + d % 2 ^ n * 2 ^ i

-- A store through a pointer into the word of the address.
unfoldable pub change : MemMips → ℕ → (ℕ → ℕ) → Outcome MemMips
unfolding checked_word
change m tmp f = checked_word m tmp >>= λ w. returns (record m { mem = set m.mem (tmp / 4) (f w) })

-- The stores. `kte` is a `sc_uint<5>`, which keeps the five low bits of what it is given.
unfoldable pub sb : MemMips → ℕ → ℕ → ℕ → Outcome MemMips
unfolding change
sb m addr kte d =
    let tmp : ℕ = u32 (addr + kte % 2 ^ 5) in change m tmp (λ w. put_field 8 (8 * (tmp % 4)) w d)

-- A misaligned halfword is reported, and stored all the same.
unfoldable pub sh : MemMips → ℕ → ℕ → ℕ → Outcome MemMips
unfolding change
sh m addr kte d =
    let tmp : ℕ = u32 (addr + kte % 2 ^ 5) in
    change m tmp (λ w. put_field 16 (16 * (tmp / 2 % 2)) w d)

unfoldable pub sw : MemMips → ℕ → ℕ → ℕ → Outcome MemMips
unfolding change
sw m addr kte d = change m (u32 (addr + kte % 2 ^ 5)) (λ w. d)

-- The words of a file, put in the array one after the other.
unfoldable pub fread_words : List ℕ → ℕ → List ℕ → Outcome (List ℕ)
fread_words mem i [] = returns mem
fread_words mem i (w ∷ ws) =
    let rest = fread_words (set mem i w) (suc i) ws in
    if ltb i (length mem) then rest else fault out_of_bounds

-- `load_mem`, for a file of whole words or none at all: -1, or the rounds of its loop, of which the
-- last finds the end of the file and reads nothing.
unfoldable pub load_mem : MemMips → Option (List ℕ) → ℕ → Outcome (ℤ × MemMips)
unfolding fread_words
load_mem m none start = returns (negsuc 0, m)
load_mem m (some ws) start = fread_words m.mem (start / 4) ws >>= λ mem.
    returns (pos (suc (length ws)), record m { mem = mem })

-- The address is not looked at.
unfoldable pub direct_read : MemMips → ℕ → ℕ → Outcome (Bool × ℕ)
direct_read m d address =
    if m.op_type_reg == Const.byte
    then (lb m m.addr_reg 0 >>= λ v. returns (true, v))
    else if m.op_type_reg == Const.half
    then (lh m m.addr_reg 0 >>= λ v. returns (true, v))
    else (lw m m.addr_reg 0 >>= λ v. returns (true, v))

unfoldable pub direct_write : MemMips → ℕ → ℕ → Outcome (Bool × MemMips)
direct_write m d address =
    if address == Const.op_type_reg
    then returns (true, record m { op_type_reg = d })
    else if address == Const.addr_reg
    then returns (true, record m { addr_reg = d })
    else if address == Const.mem_addr
    then (if m.op_type_reg == Const.byte
        then (sb m m.addr_reg 0 d >>= λ m'. returns (true, m'))
        else if m.op_type_reg == Const.half
        then (sh m m.addr_reg 0 d >>= λ m'. returns (true, m'))
        else (sw m m.addr_reg 0 d >>= λ m'. returns (true, m')))
    else returns (true, m)

-- `read`, by the sign of `wait_left`
unfoldable pub read_at : ℤ → MemMips → ℕ → ℕ → Outcome (Status × ℕ × MemMips)
read_at (pos (suc n)) m d address = returns (wait, d, m)
read_at (pos zero) m d address = direct_read m d address >>= λ (done, v). returns (ok, v, m)
read_at (negsuc n) m d address =
    if address == Const.mem_addr
    then returns (wait, d, record m { wait_left = m.wait_states })
    else returns (wait, d, record m { wait_left = pos 0 })

unfoldable pub read : MemMips → ℕ → ℕ → Outcome (Status × ℕ × MemMips)
unfolding read_at
read m d address = read_at m.wait_left m d address

unfoldable pub write_at : ℤ → MemMips → ℕ → ℕ → Outcome (Status × MemMips)
write_at (pos n) m d address = returns (wait, m)
write_at (negsuc n) m d address = direct_write m d address >>= λ (done, m'). returns (ok, m')

unfoldable pub write : MemMips → ℕ → ℕ → Outcome (Status × MemMips)
unfolding write_at
write m d address = write_at m.wait_left m d address

instance abbrev pub mem_mips : SlaveIf MemMips
mem_mips = record {
  read = read;
  write = write;
  direct_read = direct_read;
  direct_write = direct_write;
  start_address = λ m. Const.start_addr;
  end_address = λ m. Const.end_addr;
  posedge = update_wait;
}

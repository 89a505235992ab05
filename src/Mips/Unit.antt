-- ===== src/Mips/Unit.antt =====
-- The MUL and DIV instructions of include/mips_v0.h, which use the unit of include/mdu.h over the bus.
use simple_bus_mdu.Prelude.{
  ℕ, zero, suc, ◌%◌, ◌^◌, ◌≤◌, ◌<◌, ◌≡◌, ◌≢◌, refl, ap, ◌∙◌, Option, some, Outcome, returns, ◌==◌,
  arith, if◌then◌else◌,
}
use simple_bus_mdu.Prelude.Int.{pos, ◌+ℤ◌, ◌*ℤ◌, magnitude}
use simple_bus_mdu.Word.{signed32}
use simple_bus_mdu.Word.Division.{SameSign}
use simple_bus_mdu.Bus.Forms.{Bus, update}
use simple_bus_mdu.Bus.Mounted.{Mounted}
use simple_bus_mdu.Bus.Quiet.{Quiet}
use simple_bus_mdu.Bus.Transactions.{burst_read-Completed, burst_write-Completed}
use simple_bus_mdu.Mdu.Const
use simple_bus_mdu.Mdu.{calculate}
use simple_bus_mdu.Mdu.Timing.{idle, idle-CountsDown, write-op_a, write-op_b}
use simple_bus_mdu.Mdu.Arithmetic.{Divides, calculate-product, calculate-division}
use simple_bus_mdu.System.{Slave, unit, slave}
use simple_bus_mdu.System.Mounts.{slave-KeepsRange, unit-CountsDown, write-unit}
use simple_bus_mdu.Mips.Codes.Funct
use simple_bus_mdu.Mips.Codes.Opcode
use simple_bus_mdu.Mips.{Mips, lo_cell, hi_cell, breg, set_cell, Decoded}
use simple_bus_mdu.Mips.Execute.{use_unit, execute, execute_opcode, execute_fun}

-- The bus is quiet, and the unit mounted with no operation under way.
pub record ReadyUnit (b : Bus Slave) (k a c n : ℕ) : Type 0 where
  pub quiet : Quiet b
  pub mounted : Mounted b.slave_port k (unit (idle a c n))

-- The instruction comes back with these two words in `lo` and `hi`; the other cells and `pc` are as
-- before, and the unit holds the operands.
pub record Used (call : Outcome (Option (Mips Slave))) (m : Mips Slave) (k a c n low high : ℕ)
    : Type 0 where
  pub after : Mips Slave
  pub computed : call ≡ returns (some after)
  pub ready : ReadyUnit after.bus k a c n
  pub stored : after.bus.cells ≡ update (update m.bus.cells lo_cell low) hi_cell high
  pub same_pc : after.pc ≡ m.pc

pub use_unit-Used :
    (fuel : ℕ) (m : Mips Slave) (k a0 c0 n rs rt at_low at_high : ℕ) {low high : ℕ}
    → ReadyUnit m.bus k a0 c0 n
    → n ≢ 0
    → n < fuel
    → at_low % 4 ≡ 0
    → at_high % 4 ≡ 0
    → (256 ≤ at_low) × (at_low ≤ 319)
    → (256 ≤ at_high) × (at_high ≤ 319)
    → calculate (idle (m.bus.cells rs) (m.bus.cells rt) n) at_low ≡ returns low
    → calculate (idle (m.bus.cells rs) (m.bus.cells rt) n) at_high ≡ returns high
    → Used (use_unit fuel m rs rt at_low at_high) m k (m.bus.cells rs) (m.bus.cells rt) n low high
use_unit-Used zero m k a0 c0 n rs rt al ah r positive enough el eh hl hh low_is high_is =
    elim enough [ ]
use_unit-Used (suc fuel) m k a0 c0 n rs rt al ah {low} {high} r positive enough el eh hl hh low_is
      high_is =
    let a : ℕ = m.bus.cells rs in
    let c : ℕ = m.bus.cells rt in
    let one =
      burst_write-Completed slave-KeepsRange m.bus Const.priority rs Const.op_a k
        (unit (idle a0 c0 n)) r.quiet r.mounted refl refl (omega arith) (unit (idle a c0 n)) fuel
        (write-unit (idle a0 c0 n) a Const.op_a (write-op_a a0 c0 n a)) (refl, refl) in
    let two =
      burst_write-Completed slave-KeepsRange one.after Const.priority rt Const.op_b k
        (unit (idle a c0 n)) one.quiet one.mounted refl refl (omega arith) (unit (idle a c n)) fuel
        (rw one.stored (write-unit (idle a c0 n) c Const.op_b (write-op_b a c0 n c)))
        (refl, refl) in
    let three =
      (burst_read-Completed slave-KeepsRange two.after Const.priority lo_cell al k
          (unit (idle a c n)) two.quiet two.mounted (ground arith) (ground (arith, hl))
          (omega (arith, hl)) n low positive
          (unit-CountsDown (idle a c n) al n low (idle-CountsDown a c n al low_is)) (suc fuel)).0
        enough in
    let four =
      (burst_read-Completed slave-KeepsRange three.after Const.priority hi_cell ah k
          (unit (idle a c n)) three.quiet three.mounted (ground arith) (ground (arith, hh))
          (omega (arith, hh)) n high positive
          (unit-CountsDown (idle a c n) ah n high (idle-CountsDown a c n ah high_is)) (suc fuel)).0
        enough in
    record {
      after = record m { bus = four.after };
      computed =
          unfold use_unit in rw (one.computed, two.computed, three.computed, four.computed) refl;
      ready = record { quiet = four.quiet; mounted = four.mounted };
      stored =
          four.stored
          ∙ ap (λ (f : ℕ → ℕ). update f hi_cell high)
              (three.stored ∙ ap (λ (f : ℕ → ℕ). update f lo_cell low) (two.stored ∙ one.stored));
      same_pc = refl;
    }

-- What a register holds when an instruction runs: register 0 holds 0.
abbrev pub operand : Mips Slave → ℕ → ℕ
operand m r = if r == 0 then 0 else breg m r

zeroed-ReadyUnit :
    (m : Mips Slave) (k a c n : ℕ)
    → ReadyUnit m.bus k a c n
    → ReadyUnit (set_cell m 0 0).bus k a c n
zeroed-ReadyUnit m k a c n r = record {
  quiet = record {
    current = r.quiet.current;
    none_pending = r.quiet.none_pending;
    no_locks = r.quiet.no_locks;
  };
  mounted = r.mounted;
}

execute-use_unit-mul :
    (fuel : ℕ) (m : Mips Slave) (i : Decoded)
    → i.opcode ≡ Opcode.fun
    → i.funct ≡ Funct.mul
    → execute fuel m i ≡ use_unit fuel (set_cell m 0 0) i.rs i.rt Const.m_low Const.m_high
unfolding execute execute_opcode execute_fun
execute-use_unit-mul fuel m i e f = rw (e, f) refl

execute-use_unit-div :
    (fuel : ℕ) (m : Mips Slave) (i : Decoded)
    → i.opcode ≡ Opcode.fun
    → i.funct ≡ Funct.div
    → execute fuel m i ≡ use_unit fuel (set_cell m 0 0) i.rs i.rt Const.div Const.modulo
unfolding execute execute_opcode execute_fun
execute-use_unit-div fuel m i e f = rw (e, f) refl

module _ (fuel : ℕ) (m : Mips Slave) (i : Decoded) (k a0 c0 n : ℕ)
    (ready : ReadyUnit m.bus k a0 c0 n) (positive : n ≢ 0) (enough : n < fuel)
    (is_fun : i.opcode ≡ Opcode.fun) (small_s : operand m i.rs < 2 ^ 32)
    (small_t : operand m i.rt < 2 ^ 32) where
  -- On a quiet bus with an idle unit of `n` wait states, `n` at least 1, given more than `n` cycles for
  -- each call, MUL comes back with the two words of the signed product of its registers in `lo` and
  -- `hi`.
  pub execute-mul :
      i.funct ≡ Funct.mul
      → (m' : Mips Slave) × (execute fuel m i ≡ returns (some m'))
        × (signed32 (m'.bus.cells hi_cell) *ℤ pos (2 ^ 32) +ℤ pos (m'.bus.cells lo_cell)
            ≡ signed32 (operand m i.rs) *ℤ signed32 (operand m i.rt))
        × (m'.pc ≡ m.pc)
  execute-mul is_mul =
      let z : Mips Slave = set_cell m 0 0 in
      let (high, low, high_is, low_is, product) =
        calculate-product (idle (operand m i.rs) (operand m i.rt) n)
          (record { op_a = small_s; op_b = small_t }) in
      let u =
        use_unit-Used fuel z k a0 c0 n i.rs i.rt Const.m_low Const.m_high
          (zeroed-ReadyUnit m k a0 c0 n ready) positive enough refl refl (omega arith, omega arith)
          (omega arith, omega arith) low_is high_is in
      (
        u.after,
        execute-use_unit-mul fuel m i is_fun is_mul ∙ u.computed,
        rw u.stored product,
        u.same_pc,
      )

  -- On such a system, and with a divisor other than 0 and not the least `int` by -1, DIV comes back with
  -- the quotient of its registers in `lo` and the remainder in `hi`.
  pub execute-div :
      i.funct ≡ Funct.div
      → Divides (idle (operand m i.rs) (operand m i.rt) n)
      → (m' : Mips Slave) × (execute fuel m i ≡ returns (some m'))
        × (signed32 (m'.bus.cells lo_cell) *ℤ signed32 (operand m i.rt)
              +ℤ signed32 (m'.bus.cells hi_cell)
            ≡ signed32 (operand m i.rs))
        × (magnitude (signed32 (m'.bus.cells hi_cell)) < magnitude (signed32 (operand m i.rt)))
        × SameSign (signed32 (m'.bus.cells hi_cell)) (signed32 (operand m i.rs))
        × (m'.pc ≡ m.pc)
  execute-div is_div divides =
      let z : Mips Slave = set_cell m 0 0 in
      let (q, r, q_is, r_is, back, bounded, sign) =
        calculate-division (idle (operand m i.rs) (operand m i.rt) n)
          (record { op_a = small_s; op_b = small_t }) divides in
      let u =
        use_unit-Used fuel z k a0 c0 n i.rs i.rt Const.div Const.modulo
          (zeroed-ReadyUnit m k a0 c0 n ready) positive enough refl refl (omega arith, omega arith)
          (omega arith, omega arith) q_is r_is in
      (
        u.after,
        execute-use_unit-div fuel m i is_fun is_div ∙ u.computed,
        rw u.stored back,
        rw u.stored bounded,
        rw u.stored sign,
        u.same_pc,
      )

-- ===== src/Masters/Direct.antt =====
-- What the direct test master prints: include/mdu_direct_master.h on the direct interface of
-- src/simple_bus.cpp.
use simple_bus_mdu.Prelude.{
  ℕ, ◌+◌, ◌*◌, ◌/◌, ◌%◌, ◌^◌, ◌≡◌, refl, ap, true, set, Outcome, returns, ◌==◌, arith,
}
use simple_bus_mdu.Word.{signed32, wrap64}
use simple_bus_mdu.Prelude.Int.{ℤ, pos, negsuc, ◌*ℤ◌}
use simple_bus_mdu.Types.{SlaveIf}
use simple_bus_mdu.Bus.Forms.{Bus, update}
use simple_bus_mdu.Bus.Slaves.{answers}
use simple_bus_mdu.Bus.Service.{direct_read, direct_write}
use simple_bus_mdu.Bus.Mounted.{Mounted, Mounted-set, Mounted-found}
use simple_bus_mdu.Mdu.Const
use simple_bus_mdu.Mdu
use simple_bus_mdu.Mdu.{Mdu, calculate, product, mdu, store}
use simple_bus_mdu.Mdu.Arithmetic.{calculate-m_high, calculate-m_low}
use simple_bus_mdu.Masters.Testcase.{
  op_a_cell, op_b_cell, data_cell, with_operands, read_directly, do_testcase_directly,
}

module _ {S : Type 0} ⦃slave_if : SlaveIf S⦄ where
  pub direct_read-done :
      (b : Bus S) (at a k : ℕ) (s : S) {v : ℕ}
      → Mounted b.slave_port k s
      → answers s a ≡ true
      → (a % 4 == 0) ≡ true
      → slave_if.direct_read s (b.cells at) a ≡ returns (true, v)
      → direct_read b at a ≡ returns (true, record b { cells = update b.cells at v })
  unfolding direct_read
  direct_read-done b at a k s m hit aligned e =
      rw (aligned, Mounted-found b.slave_port k a m hit, e) refl

  direct_write-done :
      (b : Bus S) (at a k : ℕ) (s : S) {s' : S}
      → Mounted b.slave_port k s
      → answers s a ≡ true
      → (a % 4 == 0) ≡ true
      → slave_if.direct_write s (b.cells at) a ≡ returns (true, s')
      → direct_write b at a ≡ returns (true, record b { slave_port = set b.slave_port k s' })
  unfolding direct_write
  direct_write-done b at a k s m hit aligned e =
      rw (aligned, Mounted-found b.slave_port k a m hit, e) refl

-- The unit with these operands.
abbrev pub holding : Mdu → ℕ → ℕ → Mdu
holding m a c = record m { op_a = a; op_b = c }

direct_read-calculate :
    (m : Mdu) (d address : ℕ) {v : ℕ}
    → calculate m address ≡ returns v
    → mdu.direct_read m d address ≡ returns (true, v)
unfolding Mdu.direct_read
direct_read-calculate m d address e = rw e refl

direct_write-op_a :
    (m : Mdu) (d : ℕ) → mdu.direct_write m d Const.op_a ≡ returns (true, record m { op_a = d })
unfolding Mdu.direct_write store
direct_write-op_a m d = refl

direct_write-op_b :
    (m : Mdu) (d : ℕ) → mdu.direct_write m d Const.op_b ≡ returns (true, record m { op_b = d })
unfolding Mdu.direct_write store
direct_write-op_b m d = refl

read_directly-calculate :
    (b : Bus Mdu) (k address : ℕ) (m : Mdu) {v : ℕ}
    → Mounted b.slave_port k m
    → answers m address ≡ true
    → (address % 4 == 0) ≡ true
    → calculate m address ≡ returns v
    → read_directly b address ≡ returns (v, record b { cells = update b.cells data_cell v })
unfolding read_directly
read_directly-calculate b k address m mounted hit aligned e =
    rw
      (direct_read-done b data_cell address k m mounted hit aligned
        (direct_read-calculate m (b.cells data_cell) address e))
      refl

-- The two words of the product, put together again.
joined :
    (m : Mdu)
    → (product m / 2 ^ 32 * 2 ^ 32 + product m % 2 ^ 32) % 2 ^ 64
      ≡ wrap64 (signed32 m.op_a *ℤ signed32 m.op_b)
unfolding product
joined m = halves (signed32 m.op_a *ℤ signed32 m.op_b)
  where
    halves : (x : ℤ) → (wrap64 x / 2 ^ 32 * 2 ^ 32 + wrap64 x % 2 ^ 32) % 2 ^ 64 ≡ wrap64 x
    halves (pos x) = omega arith
    halves (negsuc x) = omega arith

both :
    (m : Mdu) (high low : ℕ)
    → calculate m Const.m_high ≡ returns high
    → calculate m Const.m_low ≡ returns low
    → (high * 2 ^ 32 + low) % 2 ^ 64 ≡ wrap64 (signed32 m.op_a *ℤ signed32 m.op_b)
both m high low h l =
    let high_is = same (product m / 2 ^ 32) high (calculate-m_high m) h in
    let low_is = same (product m % 2 ^ 32) low (calculate-m_low m) l in
    rw (high_is, low_is) at (joined m)
  where
    same : {call : Outcome ℕ} (x y : ℕ) → call ≡ returns x → call ≡ returns y → x ≡ y
    same x y e f = ground arith

-- On a bus with the unit mounted, whatever its state, and with operands on which the four operations
-- have results, the direct master prints these results; `m[high:low]` is the 64-bit product.
pub do_testcase_directly-prints :
    (b : Bus Mdu) (k : ℕ) (m : Mdu) (a c : ℕ) {high low div modulo : ℕ}
    → Mounted b.slave_port k m
    → calculate (holding m a c) Const.m_high ≡ returns high
    → calculate (holding m a c) Const.m_low ≡ returns low
    → calculate (holding m a c) Const.div ≡ returns div
    → calculate (holding m a c) Const.modulo ≡ returns modulo
    → (b' : Bus Mdu) × (do_testcase_directly b a c
        ≡ returns (
          record {
            m_high = high;
            m_low = low;
            m_both = wrap64 (signed32 a *ℤ signed32 c);
            div = div;
            modulo = modulo;
          },
          b',
        ))
      × Mounted b'.slave_port k (holding m a c)
unfolding do_testcase_directly
do_testcase_directly-prints b k m a c {high} {low} {div} {modulo} mounted high_is low_is div_is
      modulo_is =
    let b0 : Bus Mdu = with_operands b a c in
    let ma : Mdu = record m { op_a = a } in
    let one =
      direct_write-done b0 op_a_cell Const.op_a k m mounted refl refl (direct_write-op_a m a) in
    let b1 : Bus Mdu = record b0 { slave_port = set b0.slave_port k ma } in
    let mounted1 = Mounted-set b0.slave_port k m ma mounted (refl, refl) in
    let two =
      direct_write-done b1 op_b_cell Const.op_b k ma mounted1 refl refl (direct_write-op_b ma c) in
    let b2 : Bus Mdu = record b1 { slave_port = set b1.slave_port k (holding m a c) } in
    let mounted2 = Mounted-set b1.slave_port k ma (holding m a c) mounted1 (refl, refl) in
    let got : Bus Mdu → ℕ → Bus Mdu = λ x v. record x { cells = update x.cells data_cell v } in
    let reads : (x : Bus Mdu) (address v : ℕ)
        → x.slave_port ≡ b2.slave_port
        → answers (holding m a c) address ≡ true
        → (address % 4 == 0) ≡ true
        → calculate (holding m a c) address ≡ returns v
        → read_directly x address ≡ returns (v, got x v) =
      λ x address v same hit aligned e.
        read_directly-calculate x k address (holding m a c) (rw same mounted2) hit aligned e in
    let b3 : Bus Mdu = got b2 high in
    let b4 : Bus Mdu = got b3 low in
    let b5 : Bus Mdu = got b4 high in
    let b6 : Bus Mdu = got b5 low in
    let b7 : Bus Mdu = got b6 div in
    (
      got b7 modulo,
      rw
          (
            one,
            two,
            reads b2 Const.m_high high refl refl refl high_is,
            reads b3 Const.m_low low refl refl refl low_is,
            reads b4 Const.m_high high refl refl refl high_is,
            reads b5 Const.m_low low refl refl refl low_is,
            reads b6 Const.div div refl refl refl div_is,
            reads b7 Const.modulo modulo refl refl refl modulo_is,
          )
          (ap
            (λ (x : ℕ). returns (
              record { m_high = high; m_low = low; m_both = x; div = div; modulo = modulo },
              got b7 modulo,
            ))
            (both (holding m a c) high low high_is low_is)),
      mounted2,
    )

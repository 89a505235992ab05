-- ===== src/Mips/Loads.antt =====
-- The LW instruction of include/mips_v0.h, which reads the memory of include/mem_mips.h over the bus.
use simple_bus_mdu.Prelude.{
  ℕ, ◌+◌, ◌%◌, ◌^◌, ◌<◌, ◌≡◌, ◌≢◌, refl, ap, sym, ◌∙◌, some, returns, arith,
}
use simple_bus_mdu.Types.{u32}
use simple_bus_mdu.Bus.Forms.{update}
use simple_bus_mdu.Bus.Blocking.{◌>>=?◌}
use simple_bus_mdu.MemMips.Const
use simple_bus_mdu.MemMips.{MemMips}
use simple_bus_mdu.MemMips.Bytes.{IsWellFormed, Holds, four_bytes}
use simple_bus_mdu.System.{Slave, slave}
use simple_bus_mdu.Wrapper
use simple_bus_mdu.Wrapper.Laws.{ReadyMemory, selected, load-Gave}
use simple_bus_mdu.Mips.Codes.Opcode
use simple_bus_mdu.Mips.{Mips, Decoded, breg, set_cell}
use simple_bus_mdu.Mips.Execute.{execute, execute_opcode, execute_memory, loaded}
use simple_bus_mdu.Mips.Unit.{operand}
use simple_bus_mdu.Mips.Fetch.{load_word_at}

execute-lw_opcode :
    (fuel : ℕ) (p : Mips Slave) (i : Decoded)
    → i.opcode ≡ Opcode.lw
    → execute fuel p i ≡ (
        Wrapper.lw fuel (set_cell p 0 0).bus (operand p i.rs) (i.kte16 % 2 ^ 16)
        >>=? loaded (set_cell p 0 0) i.rt)
unfolding execute execute_opcode execute_memory
execute-lw_opcode fuel p i e = rw e refl

update_at : (cells : ℕ → ℕ) (j v : ℕ) → update cells j v j ≡ v
update_at cells j v = ground arith

-- On a quiet bus with an idle, well-formed memory of `n` wait states, `n` at least 1, given more than
-- `n` cycles for each call: LW at a multiple of 4 that the memory holds comes back with the four bytes
-- there in its register, the same `pc`, the bus quiet, and the memory idle with its words unchanged. The
-- address is the base register and the offset, of which only the 16 bits of the instruction count,
-- without its sign.
pub execute-lw :
    (fuel : ℕ) (p : Mips Slave) (i : Decoded) (k n a : ℕ) (m : MemMips)
    → ReadyMemory p.bus k m n
    → n ≢ 0
    → n < fuel
    → IsWellFormed m
    → i.opcode ≡ Opcode.lw
    → a ≡ u32 (operand p i.rs + i.kte16 % 2 ^ 16)
    → Holds m a
    → a % 4 ≡ 0
    → (p' : Mips Slave) × (execute fuel p i ≡ returns (some p'))
      × (breg p' i.rt ≡ four_bytes m a)
      × (p'.pc ≡ p.pc)
      × ReadyMemory p'.bus k (selected m Const.word a) n
execute-lw fuel p i k n a m ready positive enough v is_lw at h aligned =
    let z : Mips Slave = set_cell p 0 0 in
    let quiet_z : ReadyMemory z.bus k m n = record {
      quiet = record {
        current = ready.quiet.current;
        none_pending = ready.quiet.none_pending;
        no_locks = ready.quiet.no_locks;
      };
      mounted = ready.mounted;
    } in
    let got =
      load-Gave fuel z.bus k n Const.word a m quiet_z positive enough
        (load_word_at m n a v h aligned) in
    let came : Wrapper.lw fuel z.bus (operand p i.rs) (i.kte16 % 2 ^ 16)
        ≡ returns (some (four_bytes m a, got.after)) =
      unfold Wrapper.lw in
      (ap (λ x. Wrapper.load fuel z.bus Const.word x) (sym at) ∙ got.computed) in
    (
      set_cell (record z { bus = got.after }) i.rt (four_bytes m a),
      execute-lw_opcode fuel p i is_lw ∙ rw came refl,
      update_at got.after.cells i.rt (four_bytes m a),
      refl,
      record {
        quiet = record {
          current = got.ready.quiet.current;
          none_pending = got.ready.quiet.none_pending;
          no_locks = got.ready.quiet.no_locks;
        };
        mounted = got.ready.mounted;
      },
    )

-- ===== src/Simulator.antt =====
-- The untimed MIPS simulator: its state and the decoding of an instruction, MipsCpp/mips.h,
-- MipsCpp/globals.h and MipsCpp/mips.cpp.
pub mod Memory
pub mod Execute
pub mod Program
pub mod Implements
pub mod Equivalence
pub mod Forward
pub mod Ending
pub mod Operations
use simple_bus_mdu.Prelude.{ℕ, ◌%◌, ◌^◌, List, [], ◌∷◌, ◌++◌}
use simple_bus_mdu.MemMips.{shift_right}
use simple_bus_mdu.Bus.Forms.{update}
use simple_bus_mdu.Mips.{Decoded}

-- What a system call prints: an integer, or characters.
pub data Shown : Type 0 where
  integer : ℕ → Shown
  text : List ℕ → Shown

-- The global variables. Those that hold the fields of the instruction are in what `decode` gives.
pub record Machine : Type 0 where
  pub breg : ℕ → ℕ
  pub pc : ℕ
  pub ri : ℕ
  pub hi : ℕ
  pub lo : ℕ
  pub mem : List ℕ
  pub input : List ℕ
  pub output : List Shown

-- `init` leaves the registers alone.
unfoldable pub init : Machine → Machine
init m = record m { pc = 0; ri = 0; hi = 0; lo = 0 }

-- `decode`; `kte16` keeps no sign.
unfoldable pub decode : ℕ → Decoded
decode ri = record {
  opcode = shift_right ri 26 % 2 ^ 6;
  rs = shift_right ri 21 % 2 ^ 5;
  rt = shift_right ri 16 % 2 ^ 5;
  rd = shift_right ri 11 % 2 ^ 5;
  shamt = shift_right ri 6 % 2 ^ 5;
  funct = ri % 2 ^ 6;
  kte16 = ri % 2 ^ 16;
  kte26 = ri % 2 ^ 26;
}

abbrev pub set_reg : Machine → ℕ → ℕ → Machine
set_reg m i v = record m { breg = update m.breg i v }

abbrev pub jump : Machine → ℕ → Machine
jump m target = record m { pc = target }

abbrev pub show : Machine → Shown → Machine
show m s = record m { output = m.output ++ s ∷ [] }

-- ===== src/Simulator/Forward.antt =====
-- What an instruction of MipsCpp/mips.cpp that is no jump and no store does to `pc` and to the memory.
use simple_bus_mdu.Prelude.{
  ℕ, ◌+◌, ◌^◌, ◌-◌, ◌≤◌, ◌<◌, ◌≡◌, refl, ◌∙◌, Bool, true, false, not, ◌&&◌, ◌||◌, Outcome, returns,
  fault, ◌==◌, if◌then◌else◌, ◌>>=◌, arith,
}
use simple_bus_mdu.Mips.Codes.Funct
use simple_bus_mdu.Mips.Codes.Opcode
use simple_bus_mdu.Mips.{Decoded, less_than}
use simple_bus_mdu.Simulator.{Machine, set_reg}
use simple_bus_mdu.Simulator.Execute.{
  execute, execute_opcode, execute_fun, execute_memory, syscall, divide, branch_if,
}

-- The jumps, and the stores, which could write a jump.
abbrev pub may_go_back : Decoded → Bool
may_go_back i =
    i.opcode == Opcode.jal
    || i.opcode == Opcode.j
    || i.opcode == Opcode.sb
    || i.opcode == Opcode.sh
    || i.opcode == Opcode.sw
    || (i.opcode == Opcode.fun && i.funct == Funct.jr)

-- The memory is the same, and `pc` is not less, by at most `d` more.
pub record Forward (d : ℕ) (m n : Machine) : Type 0 where
  pub same_mem : n.mem ≡ m.mem
  pub above : m.pc ≤ n.pc
  pub near : n.pc ≤ m.pc + d

-- A predicate of the value, where there is one.
abbrev pub Gives : (Machine → Type 0) → Outcome Machine → Type 0
Gives P (returns m) = P m
Gives P (fault e) = Unit

Gives-if :
    (P : Machine → Type 0) (b : Bool) (x y : Outcome Machine)
    → (b ≡ true → Gives P x)
    → (b ≡ false → Gives P y)
    → Gives P (if b then x else y)
Gives-if P true x y f g = f refl
Gives-if P false x y f g = g refl

Gives->>= :
    (P : Machine → Type 0) (c : Outcome ℕ) (f : ℕ → Machine)
    → ((v : ℕ) → P (f v))
    → Gives P (c >>= λ v. returns (f v))
Gives->>= P (returns v) f h = h v
Gives->>= P (fault e) f h = tt

abbrev On : Machine → Outcome Machine → Type 0
On m o = Gives (Forward (2 ^ 18) m) o

keeps : (m n : Machine) → n.mem ≡ m.mem → n.pc ≡ m.pc → Forward (2 ^ 18) m n
keeps m n e q = record { same_mem = e; above = omega (arith, q); near = omega (arith, q) }

-- The cases of a `switch`: one that leaves the memory and `pc`, one that is excluded, a load, and a
-- branch, which goes forward since its constant has no sign.
case_keeps :
    (m : Machine) (b : Bool) (n : Machine) (y : Outcome Machine)
    → n.mem ≡ m.mem
    → n.pc ≡ m.pc
    → On m y
    → On m (if b then returns n else y)
case_keeps m true n y e q h = keeps m n e q
case_keeps m false n y e q h = h

case_excluded :
    (m : Machine) (b : Bool) (x y : Outcome Machine)
    → b ≡ false
    → On m y
    → On m (if b then x else y)
case_excluded m true x y e h = absurd cc
case_excluded m false x y e h = h

case_loads :
    (m : Machine) (b : Bool) (c : Outcome ℕ) (f : ℕ → Machine) (y : Outcome Machine)
    → ((v : ℕ) → Forward (2 ^ 18) m (f v))
    → On m y
    → On m (if b then (c >>= λ v. returns (f v)) else y)
case_loads m true c f y h g = Gives->>= (Forward (2 ^ 18) m) c f h
case_loads m false c f y h g = g

branch_if-Forward :
    (m : Machine) (test : Bool) (k : ℕ) → m.pc < 2 ^ 30 → k < 2 ^ 16 → On m (branch_if test m k)
branch_if-Forward m true k h lt = record {
  same_mem = refl;
  above = omega arith;
  near = omega arith;
}
branch_if-Forward m false k h lt = keeps m m refl refl

case_branches :
    (m : Machine) (b test : Bool) (k : ℕ) (y : Outcome Machine)
    → m.pc < 2 ^ 30
    → k < 2 ^ 16
    → On m y
    → On m (if b then branch_if test m k else y)
case_branches m true test k y h lt g = branch_if-Forward m test k h lt
case_branches m false test k y h lt g = g

divide-Forward : (m : Machine) (s t : ℕ) → On m (divide m s t)
unfolding divide
divide-Forward m s t =
    Gives-if _ (t == 0) _ _ (λ e. tt)
      (λ e.
        Gives-if _ (s == 2 ^ 31) _ _
          (λ e'. Gives-if _ (t == 2 ^ 32 - 1) _ _ (λ e''. tt) (λ e''. keeps m _ refl refl))
          (λ e'. keeps m _ refl refl))

execute_fun-Forward :
    (m : Machine) (i : Decoded) → (i.funct == Funct.jr) ≡ false → On m (execute_fun m i)
unfolding execute_fun syscall
execute_fun-Forward m i not_jr =
    let f : ℕ = i.funct in
    case_keeps m (f == Funct.syscall) _ _ refl refl (
      case_keeps m (f == Funct.sll) _ _ refl refl (
        case_keeps m (f == Funct.srl) _ _ refl refl (
          case_keeps m (f == Funct.sra) _ _ refl refl (
            case_excluded m (f == Funct.jr) _ _ not_jr (
              case_keeps m (f == Funct.mul) _ _ refl refl (
                Gives-if _ (f == Funct.div) _ _ (λ e. divide-Forward m (m.breg i.rs) (m.breg i.rt))
                  (λ e. case_keeps m (f == Funct.add) _ _ refl refl (
                    case_keeps m (f == Funct.addu) _ _ refl refl (
                      case_keeps m (f == Funct.sub) _ _ refl refl (
                        case_keeps m (f == Funct.and) _ _ refl refl (
                          case_keeps m (f == Funct.or) _ _ refl refl (
                            case_keeps m (f == Funct.xor) _ _ refl refl (
                              case_keeps m (f == Funct.nor) _ _ refl refl (
                                case_keeps m (f == Funct.slt) _ _ refl refl
                                  (keeps m m refl refl)))))))))))))))

execute_memory-Forward :
    (m : Machine) (i : Decoded)
    → (i.opcode == Opcode.sb) ≡ false
    → (i.opcode == Opcode.sh) ≡ false
    → (i.opcode == Opcode.sw) ≡ false
    → On m (execute_memory m i)
unfolding execute_memory
execute_memory-Forward m i not_sb not_sh not_sw =
    let o : ℕ = i.opcode in
    case_loads m (o == Opcode.lb) _ _ _ (λ w. keeps m _ refl refl)
      (case_loads m (o == Opcode.lh) _ _ _ (λ v. keeps m _ refl refl)
        (case_loads m (o == Opcode.lw) _ _ _ (λ v. keeps m _ refl refl)
          (case_loads m (o == Opcode.lhu) _ _ _ (λ w. keeps m _ refl refl)
            (case_excluded m (o == Opcode.sb) _ _ not_sb (
              case_excluded m (o == Opcode.sh) _ _ not_sh
                (case_excluded m (o == Opcode.sw) _ _ not_sw (keeps m m refl refl)))))))

or_false : (a b : Bool) → (a || b) ≡ false → (a ≡ false) × (b ≡ false)
or_false false false e = (refl, refl)
or_false false true e = absurd cc
or_false true b e = absurd cc

execute_opcode-Forward :
    (m : Machine) (i : Decoded)
    → may_go_back i ≡ false
    → i.kte16 < 2 ^ 16
    → m.pc < 2 ^ 30
    → On m (execute_opcode m i)
unfolding execute_opcode
execute_opcode-Forward m i safe lt low =
    let o : ℕ = i.opcode in
    let s : ℕ = m.breg i.rs in
    let t : ℕ = m.breg i.rt in
    let k : ℕ = i.kte16 in
    let (h4, not_jr) = or_false _ (o == Opcode.fun && i.funct == Funct.jr) safe in
    let (h3, not_sw) = or_false _ (o == Opcode.sw) h4 in
    let (h2, not_sh) = or_false _ (o == Opcode.sh) h3 in
    let (h1, not_sb) = or_false _ (o == Opcode.sb) h2 in
    let (not_jal, not_j) = or_false (o == Opcode.jal) (o == Opcode.j) h1 in
    Gives-if _ (o == Opcode.fun) _ _ (λ e. execute_fun-Forward m i (and_false _ _ e not_jr))
      (λ e. case_excluded m (o == Opcode.jal) _ _ not_jal (
        case_excluded m (o == Opcode.j) _ _ not_j (
          case_branches m (o == Opcode.beq) (s == t) k _ low lt (
            case_branches m (o == Opcode.bne) (not (s == t)) k _ low lt (
              case_branches m (o == Opcode.blez) (not (less_than 0 s)) k _ low lt (
                case_branches m (o == Opcode.bgtz) (less_than 0 s) k _ low lt (
                  case_keeps m (o == Opcode.addi) _ _ refl refl (
                    case_keeps m (o == Opcode.addiu) _ _ refl refl (
                      case_keeps m (o == Opcode.slti) _ _ refl refl (
                        case_keeps m (o == Opcode.sltiu) _ _ refl refl (
                          case_keeps m (o == Opcode.andi) _ _ refl refl (
                            case_keeps m (o == Opcode.ori) _ _ refl refl (
                              case_keeps m (o == Opcode.xori) _ _ refl refl (
                                case_keeps m (o == Opcode.lui) _ _ refl refl
                                  (execute_memory-Forward m i not_sb not_sh not_sw)))))))))))))))
  where
    and_false : (a b : Bool) → a ≡ true → (a && b) ≡ false → b ≡ false
    and_false true b e h = h
    and_false false b e h = absurd cc

-- An instruction that is no jump and no store leaves the memory, and goes nowhere but on.
pub execute-Forward :
    (m : Machine) (i : Decoded)
    → may_go_back i ≡ false
    → i.kte16 < 2 ^ 16
    → m.pc < 2 ^ 30
    → Gives (Forward (2 ^ 18) m) (execute m i)
unfolding execute
execute-Forward m i safe lt low =
    Gives_weaken m (set_reg m 0 0) refl refl _
      (execute_opcode-Forward (set_reg m 0 0) i safe lt low)
  where
    Gives_weaken :
        (m z : Machine) → z.mem ≡ m.mem → z.pc ≡ m.pc → (o : Outcome Machine) → On z o → On m o
    Gives_weaken m z e q (returns n) f = record {
      same_mem = f.same_mem ∙ e;
      above = omega (arith, f.above, q);
      near = omega (arith, f.near, q);
    }
    Gives_weaken m z e q (fault x) f = tt

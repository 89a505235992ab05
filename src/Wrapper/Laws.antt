-- ===== src/Wrapper/Laws.antt =====
-- What the processor gets from the memory over the bus: include/mem_mips_bus_wrapper.h.
use simple_bus_mdu.Prelude.{
  ℕ, zero, suc, ◌<◌, ◌≡◌, ◌≢◌, refl, ap, ◌∙◌, true, false, Option, some, Outcome, returns, arith,
}
use simple_bus_mdu.Bus.Forms.{Bus, update}
use simple_bus_mdu.Bus.Mounted.{Mounted}
use simple_bus_mdu.Bus.Blocking.{blocking}
use simple_bus_mdu.Bus.Quiet.{Quiet}
use simple_bus_mdu.Bus.Transactions.{Completed, burst_read-Completed, burst_write-Completed}
use simple_bus_mdu.MemMips.Const
use simple_bus_mdu.MemMips.{MemMips, direct_read, direct_write}
use simple_bus_mdu.MemMips.Timing.{idle, idle-CountsDown, write-op_type, write-addr, write-mem}
use simple_bus_mdu.System.{Slave, memory, slave}
use simple_bus_mdu.System.Mounts.{slave-KeepsRange, memory-CountsDown, write-memory}
use simple_bus_mdu.Wrapper.{
  op_type_cell, addr_cell, data_cell, assign, write_word, read_word, load, store,
}

-- The bus is quiet, and the memory mounted with no operation under way: how a call of the processor
-- finds the system and leaves it.
pub record ReadyMemory (b : Bus Slave) (k : ℕ) (m : MemMips) (n : ℕ) : Type 0 where
  pub quiet : Quiet b
  pub mounted : Mounted b.slave_port k (memory (idle m n))

-- The call comes back, with the bus quiet and the memory `m`.
pub record Left (call : Outcome (Option (Bus Slave))) (k : ℕ) (m : MemMips) (n : ℕ) (cells : ℕ → ℕ)
    : Type 0 where
  pub after : Bus Slave
  pub computed : call ≡ returns (some after)
  pub ready : ReadyMemory after k m n
  pub stored : after.cells ≡ cells

-- The same, for a call with a result.
pub record Gave (call : Outcome (Option (ℕ × Bus Slave))) (v k : ℕ) (m : MemMips) (n : ℕ)
    (cells : ℕ → ℕ) : Type 0 where
  pub after : Bus Slave
  pub computed : call ≡ returns (some (v, after))
  pub ready : ReadyMemory after k m n
  pub stored : after.cells ≡ cells

-- The cells after a load, in which only its locals have changed.
abbrev pub load_cells : (ℕ → ℕ) → ℕ → ℕ → ℕ → ℕ → ℕ
load_cells cells op_type addr v =
    update (update (update cells op_type_cell op_type) addr_cell addr) data_cell v

-- The memory with its two registers written.
abbrev pub selected : MemMips → ℕ → ℕ → MemMips
selected m op_type addr = record m { op_type_reg = op_type; addr_reg = addr }

assign-ReadyMemory :
    (b : Bus Slave) (k : ℕ) (m : MemMips) (n at v : ℕ)
    → ReadyMemory b k m n
    → ReadyMemory (assign b at v) k m n
assign-ReadyMemory b k m n at v r = record {
  quiet = record {
    current = r.quiet.current;
    none_pending = r.quiet.none_pending;
    no_locks = r.quiet.no_locks;
  };
  mounted = r.mounted;
}

write_word-Left :
    (fuel : ℕ) (b : Bus Slave) (at address k n : ℕ) (m : MemMips) (cells : ℕ → ℕ)
    → Completed (blocking true fuel b Const.priority at address 1 false) k (memory (idle m n)) cells
    → Left (write_word fuel b at address) k m n cells
write_word-Left fuel b at address k n m cells c = record {
  after = c.after;
  computed = rw c.computed refl;
  ready = record { quiet = c.quiet; mounted = c.mounted };
  stored = c.stored;
}

read_word-Left :
    (fuel : ℕ) (b : Bus Slave) (at address k n : ℕ) (m : MemMips) (cells : ℕ → ℕ)
    → Completed
        (blocking false fuel b Const.priority at address 1 false)
        k
        (memory (idle m n))
        cells
    → Left (read_word fuel b at address) k m n cells
read_word-Left fuel b at address k n m cells c = record {
  after = c.after;
  computed = rw c.computed refl;
  ready = record { quiet = c.quiet; mounted = c.mounted };
  stored = c.stored;
}

select :
    (fuel : ℕ) (b : Bus Slave) (k n : ℕ) (m : MemMips) (d : ℕ)
    → ReadyMemory b k m n
    → b.cells op_type_cell ≡ d
    → Left
        (write_word (suc fuel) b op_type_cell Const.op_type_reg)
        k
        (record m { op_type_reg = d })
        n
        b.cells
select fuel b k n m d r e =
    write_word-Left (suc fuel) b op_type_cell Const.op_type_reg k n (record m { op_type_reg = d })
      b.cells
      (burst_write-Completed slave-KeepsRange b Const.priority op_type_cell Const.op_type_reg k
        (memory (idle m n)) r.quiet r.mounted refl refl (omega arith)
        (memory (idle (record m { op_type_reg = d }) n)) fuel
        (rw e (write-memory (idle m n) d Const.op_type_reg (write-op_type m n d))) (refl, refl))

point :
    (fuel : ℕ) (b : Bus Slave) (k n : ℕ) (m : MemMips) (d : ℕ)
    → ReadyMemory b k m n
    → b.cells addr_cell ≡ d
    → Left
        (write_word (suc fuel) b addr_cell Const.addr_reg)
        k
        (record m { addr_reg = d })
        n
        b.cells
point fuel b k n m d r e =
    write_word-Left (suc fuel) b addr_cell Const.addr_reg k n (record m { addr_reg = d }) b.cells
      (burst_write-Completed slave-KeepsRange b Const.priority addr_cell Const.addr_reg k
        (memory (idle m n)) r.quiet r.mounted refl refl (omega arith)
        (memory (idle (record m { addr_reg = d }) n)) fuel
        (rw e (write-memory (idle m n) d Const.addr_reg (write-addr m n d))) (refl, refl))

-- On a quiet bus with an idle memory of `n` wait states, `n` at least 1, given more than `n` cycles
-- for each call, `load` gives what the memory's `direct_read` gives at the address and with the kind
-- of operand that are asked for, and leaves the bus quiet, the memory idle with its words unchanged,
-- and every cell but its own locals as before.
pub load-Gave :
    (fuel : ℕ) (b : Bus Slave) (k n op_type addr : ℕ) (m : MemMips) {v : ℕ}
    → ReadyMemory b k m n
    → n ≢ 0
    → n < fuel
    → direct_read (idle (selected m op_type addr) n) 0 Const.mem_addr ≡ returns (true, v)
    → Gave
        (load fuel b op_type addr)
        v
        k
        (selected m op_type addr)
        n
        (load_cells b.cells op_type addr v)
load-Gave zero b k n op_type addr m r positive enough e = elim enough [ ]
load-Gave (suc fuel) b k n op_type addr m {v} r positive enough e =
    let b0 : Bus Slave = assign (assign b op_type_cell op_type) addr_cell addr in
    let r0 =
      assign-ReadyMemory (assign b op_type_cell op_type) k m n addr_cell addr
        (assign-ReadyMemory b k m n op_type_cell op_type r) in
    let one = select fuel b0 k n m op_type r0 refl in
    let two =
      point fuel one.after k n (record m { op_type_reg = op_type }) addr one.ready
        (ap (λ (f : ℕ → ℕ). f addr_cell) one.stored) in
    let m2 : MemMips = selected m op_type addr in
    let three =
      read_word-Left (suc fuel) two.after data_cell Const.mem_addr k n m2
        (update two.after.cells data_cell v)
        ((burst_read-Completed slave-KeepsRange two.after Const.priority data_cell Const.mem_addr k
            (memory (idle m2 n)) two.ready.quiet two.ready.mounted refl refl (omega arith) n v
            positive (memory-CountsDown (idle m2 n) Const.mem_addr n v (idle-CountsDown m2 n e))
            (suc fuel)).0
          enough) in
    record {
      after = three.after;
      computed =
          unfold load in
          rw (one.computed, two.computed, three.computed)
            (ap (λ (f : ℕ → ℕ). returns (some (f data_cell, three.after))) three.stored);
      ready = three.ready;
      stored = three.stored ∙ ap (λ (f : ℕ → ℕ). update f data_cell v) (two.stored ∙ one.stored);
    }

-- On a quiet bus with an idle memory, given a cycle for each call, `store` leaves the bus quiet and
-- the memory as its `direct_write` of the datum leaves it, at the address and with the kind of operand
-- that are asked for.
pub store-Left :
    (fuel : ℕ) (b : Bus Slave) (k n op_type addr d : ℕ) (m m' : MemMips)
    → ReadyMemory b k m n
    → direct_write (idle (selected m op_type addr) n) d Const.mem_addr ≡ returns (true, idle m' n)
    → Left
        (store (suc fuel) b op_type addr d)
        k
        m'
        n
        (update (update (update b.cells op_type_cell op_type) addr_cell addr) data_cell d)
store-Left fuel b k n op_type addr d m m' r e =
    let b0 : Bus Slave =
      assign (assign (assign b op_type_cell op_type) addr_cell addr) data_cell d in
    let r0 =
      assign-ReadyMemory (assign (assign b op_type_cell op_type) addr_cell addr) k m n data_cell d (
        assign-ReadyMemory (assign b op_type_cell op_type) k m n addr_cell addr
          (assign-ReadyMemory b k m n op_type_cell op_type r)) in
    let one = select fuel b0 k n m op_type r0 refl in
    let two =
      point fuel one.after k n (record m { op_type_reg = op_type }) addr one.ready
        (ap (λ (f : ℕ → ℕ). f addr_cell) one.stored) in
    let m2 : MemMips = selected m op_type addr in
    let holds : two.after.cells data_cell ≡ d =
      ap (λ (f : ℕ → ℕ). f data_cell) (two.stored ∙ one.stored) in
    let three =
      write_word-Left (suc fuel) two.after data_cell Const.mem_addr k n m' two.after.cells (
        burst_write-Completed slave-KeepsRange two.after Const.priority data_cell Const.mem_addr k
          (memory (idle m2 n)) two.ready.quiet two.ready.mounted refl refl (omega arith)
          (memory (idle m' n)) fuel
          (rw holds (write-memory (idle m2 n) d Const.mem_addr (write-mem m2 m' n d e)))
          (refl, refl)) in
    record {
      after = three.after;
      computed = unfold store in rw (one.computed, two.computed) three.computed;
      ready = three.ready;
      stored = three.stored ∙ two.stored ∙ one.stored;
    }

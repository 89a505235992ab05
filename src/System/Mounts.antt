-- ===== src/System/Mounts.antt =====
-- What the unit and the memory do, they do among the slaves of the whole system: src/main.cpp.
use simple_bus_mdu.Prelude.{ℕ, suc, ◌≡◌, refl, ap, returns, >>=-eq-returns, arith}
use simple_bus_mdu.Types.{Status, KeepsRange}
use simple_bus_mdu.Bus.Mounted.{SameRange}
use simple_bus_mdu.Bus.Timing.{CountsDown}
use simple_bus_mdu.Mdu.{Mdu, mdu}
use simple_bus_mdu.MemMips.{MemMips, mem_mips}
use simple_bus_mdu.System.{Slave, unit, memory, read, write, slave}

read-SameRange :
    (s : Slave) (d a : ℕ) {st : Status} {d' : ℕ} {s' : Slave}
    → read s d a ≡ returns (st, d', s')
    → SameRange s s'
unfolding read
read-SameRange (unit m) d a e = let (x, f, g) = >>=-eq-returns (mdu.read m d a) _ e in ground arith
read-SameRange (memory m) d a e =
    let (x, f, g) = >>=-eq-returns (mem_mips.read m d a) _ e in ground arith

write-SameRange :
    (s : Slave) (d a : ℕ) {st : Status} {s' : Slave}
    → write s d a ≡ returns (st, s')
    → SameRange s s'
unfolding write
write-SameRange (unit m) d a e =
    let (x, f, g) = >>=-eq-returns (mdu.write m d a) _ e in ground arith
write-SameRange (memory m) d a e =
    let (x, f, g) = >>=-eq-returns (mem_mips.write m d a) _ e in ground arith

pub slave-KeepsRange : KeepsRange slave
slave-KeepsRange = record {
  read_start = λ s d a e. (read-SameRange s d a e).0;
  read_end = λ s d a e. (read-SameRange s d a e).1;
  write_start = λ s d a e. (write-SameRange s d a e).0;
  write_end = λ s d a e. (write-SameRange s d a e).1;
  posedge_start = elim [ unit m ↦ refl | memory m ↦ refl ];
  posedge_end = elim [ unit m ↦ refl | memory m ↦ refl ];
}

pub read-unit :
    (m : Mdu) (d a : ℕ) {st : Status} {d' : ℕ} {m' : Mdu}
    → mdu.read m d a ≡ returns (st, d', m')
    → read (unit m) d a ≡ returns (st, d', unit m')
unfolding read
read-unit m d a e = rw e refl

pub write-unit :
    (m : Mdu) (d a : ℕ) {st : Status} {m' : Mdu}
    → mdu.write m d a ≡ returns (st, m')
    → write (unit m) d a ≡ returns (st, unit m')
unfolding write
write-unit m d a e = rw e refl

pub read-memory :
    (m : MemMips) (d a : ℕ) {st : Status} {d' : ℕ} {m' : MemMips}
    → mem_mips.read m d a ≡ returns (st, d', m')
    → read (memory m) d a ≡ returns (st, d', memory m')
unfolding read
read-memory m d a e = rw e refl

pub write-memory :
    (m : MemMips) (d a : ℕ) {st : Status} {m' : MemMips}
    → mem_mips.write m d a ≡ returns (st, m')
    → write (memory m) d a ≡ returns (st, memory m')
unfolding write
write-memory m d a e = rw e refl

pub unit-CountsDown : (m : Mdu) (a n v : ℕ) → CountsDown m a n v → CountsDown (unit m) a n v
unit-CountsDown m a n v c = record {
  busy = λ k. unit (c.busy k);
  starts = λ d. read-unit m d a (c.starts d);
  holds = λ d k. read-unit (c.busy (suc k)) d a (c.holds d k);
  ticks = λ k. ap unit (c.ticks k);
  ends = λ d. read-unit (c.busy 0) d a (c.ends d);
  rests = ap unit c.rests;
  range = λ k. (refl, refl);
}

pub memory-CountsDown : (m : MemMips) (a n v : ℕ) → CountsDown m a n v → CountsDown (memory m) a n v
memory-CountsDown m a n v c = record {
  busy = λ k. memory (c.busy k);
  starts = λ d. read-memory m d a (c.starts d);
  holds = λ d k. read-memory (c.busy (suc k)) d a (c.holds d k);
  ticks = λ k. ap memory (c.ticks k);
  ends = λ d. read-memory (c.busy 0) d a (c.ends d);
  rests = ap memory c.rests;
  range = λ k. (refl, refl);
}

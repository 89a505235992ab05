-- ===== src/MemMips/Timing.antt =====
-- The wait states of include/mem_mips.h, as the bus meets them.
use simple_bus_mdu.Prelude.{ℕ, ◌≡◌, refl, ◌∙◌, true, returns}
use simple_bus_mdu.Prelude.Int.{pos, negsuc}
use simple_bus_mdu.Types.{ok, KeepsRange}
use simple_bus_mdu.Bus.Timing.{CountsDown}
use simple_bus_mdu.MemMips.Const
use simple_bus_mdu.MemMips.{
  MemMips, word_of, check_address_range, checked_word, lb, lh, lw, direct_read, direct_write, read,
  read_at, write, write_at, mem_mips,
}

-- The memory with `n` wait states, when no read is under way and `k` cycles before the end of one.
abbrev pub idle : MemMips → ℕ → MemMips
idle m n = record m { wait_states = pos n; wait_left = negsuc 0 }

abbrev pub working : MemMips → ℕ → ℕ → MemMips
working m n k = record m { wait_states = pos n; wait_left = pos k }

pub mem_mips-KeepsRange : KeepsRange mem_mips
mem_mips-KeepsRange = record {
  read_start = λ s d a e. refl;
  read_end = λ s d a e. refl;
  write_start = λ s d a e. refl;
  write_end = λ s d a e. refl;
  posedge_start = λ s. refl;
  posedge_end = λ s. refl;
}

-- The value that the registers of the memory select, whatever the call.
direct_read-working :
    (m : MemMips) (n k d : ℕ)
    → direct_read (working m n k) d Const.mem_addr ≡ direct_read (idle m n) 0 Const.mem_addr
unfolding direct_read lb lh lw checked_word check_address_range word_of
direct_read-working m n k d = refl

read-working :
    (m : MemMips) (n d : ℕ) {v : ℕ}
    → direct_read (idle m n) 0 Const.mem_addr ≡ returns (true, v)
    → read (working m n 0) d Const.mem_addr ≡ returns (ok, v, working m n 0)
unfolding read read_at
read-working m n d e = rw (direct_read-working m n 0 d ∙ e) refl

-- A read at `MemAddr` takes the wait states of the memory, and gives what its registers select.
pub idle-CountsDown :
    (m : MemMips) (n : ℕ) {v : ℕ}
    → direct_read (idle m n) 0 Const.mem_addr ≡ returns (true, v)
    → CountsDown (idle m n) Const.mem_addr n v
idle-CountsDown m n e = record {
  busy = λ k. working m n k;
  starts = λ d. unfold read read_at in refl;
  holds = λ d k. unfold read read_at in refl;
  ticks = λ k. refl;
  ends = λ d. read-working m n d e;
  rests = refl;
  range = λ k. (refl, refl);
}

pub write-op_type :
    (m : MemMips) (n d : ℕ)
    → write (idle m n) d Const.op_type_reg ≡ returns (ok, idle (record m { op_type_reg = d }) n)
unfolding write write_at direct_write
write-op_type m n d = refl

pub write-addr :
    (m : MemMips) (n d : ℕ)
    → write (idle m n) d Const.addr_reg ≡ returns (ok, idle (record m { addr_reg = d }) n)
unfolding write write_at direct_write
write-addr m n d = refl

pub write-mem :
    (m m' : MemMips) (n d : ℕ)
    → direct_write (idle m n) d Const.mem_addr ≡ returns (true, idle m' n)
    → write (idle m n) d Const.mem_addr ≡ returns (ok, idle m' n)
unfolding write write_at
write-mem m m' n d e = rw e refl

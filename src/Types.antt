-- ===== src/Types.antt =====
-- The types that the bus, its arbiter, its masters and its slaves share:
-- simple_bus_headers/simple_bus_types.h, simple_bus_request.h and simple_bus_slave_if.h.
use simple_bus_mdu.Prelude.{ℕ, ◌%◌, ◌^◌, ◌≡◌, Bool, true, false, Outcome, returns}

-- `enum simple_bus_status`
pub data Status : Type 0 where
  ok request wait error : Status

-- `enum simple_bus_lock_status`
pub data LockStatus : Type 0 where
  lock_no lock_set lock_granted : LockStatus

abbrev pub is_request : Status → Bool
is_request request = true
is_request _ = false

abbrev pub is_wait : Status → Bool
is_wait wait = true
is_wait _ = false

abbrev pub is_set : LockStatus → Bool
is_set lock_set = true
is_set _ = false

abbrev pub is_granted : LockStatus → Bool
is_granted lock_granted = true
is_granted _ = false

abbrev pub is_no : LockStatus → Bool
is_no lock_no = true
is_no _ = false

-- `unsigned int` arithmetic
abbrev pub u32 : ℕ → ℕ
u32 n = n % 2 ^ 32

-- `struct simple_bus_request`. `data_at` is the pointer `data`: the number of a cell of the
-- masters' memory. The event `transfer_done` keeps no state; its notification is in what the bus
-- returns.
pub record Request : Type 0 where
  pub priority : ℕ
  pub do_write : Bool
  pub address : ℕ
  pub end_address : ℕ
  pub data_at : ℕ
  pub lock : LockStatus
  pub status : Status

-- the default constructor
abbrev pub new_request : Request
new_request = record {
  priority = 0;
  do_write = false;
  address = 0;
  end_address = 0;
  data_at = 0;
  lock = lock_no;
  status = ok;
}

-- `class simple_bus_slave_if`. `*data` goes in and comes out as a word.
pub record SlaveIf (S : Type 0) : Type 0 where
  pub read : S → ℕ → ℕ → Outcome (Status × ℕ × S)
  pub write : S → ℕ → ℕ → Outcome (Status × S)
  pub direct_read : S → ℕ → ℕ → Outcome (Bool × ℕ)
  pub direct_write : S → ℕ → ℕ → Outcome (Bool × S)
  pub start_address : S → ℕ
  pub end_address : S → ℕ
  -- the slave's process that is sensitive to the rising edge of the clock
  pub posedge : S → S

-- A slave answers at the same addresses all its life.
pub record KeepsRange {S : Type 0} (slave_if : SlaveIf S) : Type 0 where
  pub read_start :
      (s : S) (d a : ℕ) {st : Status} {d' : ℕ} {s' : S}
      → slave_if.read s d a ≡ returns (st, d', s')
      → slave_if.start_address s' ≡ slave_if.start_address s
  pub read_end :
      (s : S) (d a : ℕ) {st : Status} {d' : ℕ} {s' : S}
      → slave_if.read s d a ≡ returns (st, d', s')
      → slave_if.end_address s' ≡ slave_if.end_address s
  pub write_start :
      (s : S) (d a : ℕ) {st : Status} {s' : S}
      → slave_if.write s d a ≡ returns (st, s')
      → slave_if.start_address s' ≡ slave_if.start_address s
  pub write_end :
      (s : S) (d a : ℕ) {st : Status} {s' : S}
      → slave_if.write s d a ≡ returns (st, s')
      → slave_if.end_address s' ≡ slave_if.end_address s
  pub posedge_start :
      (s : S) → slave_if.start_address (slave_if.posedge s) ≡ slave_if.start_address s
  pub posedge_end : (s : S) → slave_if.end_address (slave_if.posedge s) ≡ slave_if.end_address s

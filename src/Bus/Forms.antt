-- ===== src/Bus/Forms.antt =====
-- The state of the bus, its request forms, and the bus interface that the masters call:
-- src/simple_bus.cpp (get_request, get_next_request, clear_locks, read, write, get_status,
-- burst_read, burst_write) and simple_bus_headers/simple_bus.h.
use simple_bus_mdu.Prelude.{
  ℕ, suc, ◌+◌, ◌-◌, ◌*◌, ◌^◌, Bool, true, false, ◌||◌, Option, some, List, [], ◌∷◌, map, Outcome,
  returns, fault, assert_failed, ◌==◌, if◌then◌else◌, ◌>>=◌, set,
}
use simple_bus_mdu.Types.{
  Status, ok, request, wait, error, LockStatus, lock_no, lock_set, lock_granted, is_request,
  is_wait, Request, new_request, u32,
}
use simple_bus_mdu.Arbiter.{Ref, arbitrate}

-- The state of `simple_bus`. A `simple_bus_request *` is a position in `m_requests`, from which
-- nothing is ever removed. `cells` is the masters' memory, where the pointers `data` point.
pub record Bus (S : Type 0) : Type 0 where
  pub requests : List Request
  pub current : Option ℕ
  pub slave_port : List S
  pub cells : ℕ → ℕ

abbrev pub update : (ℕ → ℕ) → ℕ → ℕ → ℕ → ℕ
update f k v j = if j == k then v else f j

-- `get_request`: the position of the request form of this priority, the form itself, and the
-- vector with a new form at its end if there was none.
unfoldable pub get_request : List Request → ℕ → ℕ × Request × List Request
get_request [] p =
    (0, record new_request { priority = p }, record new_request { priority = p } ∷ [])
get_request (r ∷ rs) p =
    let (i, found, rs') = get_request rs p in
    if r.priority == p then (0, r, r ∷ rs) else (suc i, found, r ∷ rs')

abbrev pub is_pending : Request → Bool
is_pending r = is_request r.status || is_wait r.status

-- The vector `Q` of `get_next_request`, from the position `k` on.
unfoldable pub pending : ℕ → List Request → List Ref
pending k [] = []
pending k (r ∷ rs) =
    let rest = pending (suc k) rs in
    if is_pending r then record { pos = k; req = r } ∷ rest else rest

-- One round of `clear_locks`.
abbrev pub lock_down : LockStatus → LockStatus
lock_down lock_granted = lock_set
lock_down lock_set = lock_no
lock_down lock_no = lock_no

abbrev pub unlock : Request → Request
unlock r = record r { lock = lock_down r.lock }

-- `if (lock) request->lock = ...` of `read`, `write`, `burst_read` and `burst_write`.
abbrev pub relock : LockStatus → LockStatus
relock lock_set = lock_granted
relock lock_no = lock_set
relock lock_granted = lock_set

abbrev pub lock_if : Bool → LockStatus → LockStatus
lock_if lock l = if lock then relock l else l

abbrev pub is_finished : Status → Bool
is_finished ok = true
is_finished error = true
is_finished request = false
is_finished wait = false

-- The address of the last word, `start_address + (length - 1) * 4` in `unsigned int`.
abbrev pub last_address : ℕ → ℕ → ℕ
last_address start length = u32 (start + u32 (length + 2 ^ 32 - 1) * 4)

module _ {S : Type 0} where
  abbrev pub put : Bus S → ℕ → Request → Bus S
  put b i r = record b { requests = set b.requests i r }

  unfoldable pub get_next_request : Bus S → Outcome (Bus S)
  unfolding pending
  get_next_request b = elim (pending 0 b.requests) [
    | [] ↦ returns b
    | r ∷ rs ↦
        arbitrate (r ∷ rs) >>= λ x. returns (record (put b x.pos x.req) { current = some x.pos })
  ]

  unfoldable pub clear_locks : Bus S → Bus S
  clear_locks b = record b { requests = map unlock b.requests }

  -- The request form of a master, filled in.
  unfoldable pub fill : Bus S → Bool → ℕ → ℕ → ℕ → ℕ → Bool → ℕ × Bus S
  unfolding get_request
  fill b do_write p at start finish lock =
      let (i, r, rs) = get_request b.requests p in
      (
        i,
        record b {
          requests = set rs i (record r {
            do_write = do_write;
            address = start;
            end_address = finish;
            data_at = at;
            lock = lock_if lock r.lock;
            status = request;
          });
        },
      )

  -- The non-blocking `read` and `write`, with the assertion that the last request is finished.
  unfoldable pub non_blocking : Bool → Bus S → ℕ → ℕ → ℕ → Bool → Outcome (Bus S)
  unfolding fill
  non_blocking do_write b p at address lock =
      let (i, r, rs) = get_request b.requests p in
      if is_finished r.status
      then returns (fill b do_write p at address address lock).1
      else fault assert_failed

  abbrev pub read : Bus S → ℕ → ℕ → ℕ → Bool → Outcome (Bus S)
  read = non_blocking false

  abbrev pub write : Bus S → ℕ → ℕ → ℕ → Bool → Outcome (Bus S)
  write = non_blocking true

  -- `get_status` may add a request form.
  unfoldable pub get_status : Bus S → ℕ → Status × Bus S
  unfolding get_request
  get_status b p =
      let (i, r, rs) = get_request b.requests p in (r.status, record b { requests = rs })

  -- `burst_read` and `burst_write` up to their first `wait`, with the form that is waited for.
  unfoldable pub burst : Bool → Bus S → ℕ → ℕ → ℕ → ℕ → Bool → ℕ × Bus S
  unfolding fill
  burst do_write b p at start length lock =
      fill b do_write p at start (last_address start length) lock

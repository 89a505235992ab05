-- ===== src/Bus.antt =====
-- The bus, src/simple_bus.cpp, as modules below this one: the definitions in Forms, Slaves and
-- Service, and what is proved of them in the others.
pub mod Forms
pub mod Slaves
pub mod Service
pub mod Elaboration
pub mod Requests
pub mod Pending
pub mod Invariant
pub mod Action
pub mod Sole
pub mod Edge
pub mod Mounted
pub mod Blocking
pub mod Timing
pub mod Calls
pub mod Quiet
pub mod Transactions
pub mod Hangs
pub mod Bursts
pub mod BurstWrites
pub mod NonBlocking
pub mod Done
pub mod Finishing
pub mod Locks

-- ===== src/Masters.antt =====
-- The masters: the threads that call the bus.
pub mod Testcase
pub mod Results
pub mod Direct
pub mod Rounds
pub mod Polling
pub mod Threads
pub mod Idle
pub mod Interleavings
pub mod DirectRound
pub mod BlockingRound
pub mod NonBlockingRound
pub mod Loops
pub mod Repeated
pub mod Sweeps
pub mod ManySweeps

-- ===== src/Lib.antt =====
-- A model of simple_bus_mdu: a 32-bit multiplication and division unit behind the simple_bus of
-- SystemC, with the bus, its arbiter, its memories, the test masters and a MIPS processor.
--
-- The parts, and how they interact. Masters file request forms with the bus (src/simple_bus.cpp), each
-- under its unique priority. At each falling edge of the clock the bus takes its current request, or
-- lets the arbiter (src/simple_bus_arbiter.cpp) choose among those that are pending, finds the slave
-- by its address range and asks it for one word. A slave answers OK, WAIT or ERROR; slaves with wait
-- states count them down at rising edges. A master is woken when its transfer is done. The MIPS
-- processor is such a master: it fetches, loads and stores through a wrapper of the bus, and multiplies
-- and divides with the unit.
--
-- The files, and the code that each models:
--   Types: simple_bus_headers/simple_bus_types.h, simple_bus_request.h, simple_bus_slave_if.h. The
--     interface of a slave is the record SlaveIf, an instance argument of the bus.
--   Arbiter: arbitrate. Arbiter/Choice says which request its rules choose.
--   Bus/Forms, Bus/Slaves, Bus/Service, Bus/Blocking: the operations of simple_bus, named as in the
--     source. The other files of Bus/ hold proofs.
--   FastMem, SlowMem: simple_bus_headers/simple_bus_fast_mem.h and simple_bus_slow_mem.h.
--   Word, Mdu: C++ integer arithmetic, and include/mdu.h.
--   Masters/Testcase: include/mdu_master.h and include/mdu_direct_master.h.
--   Masters/Rounds: one round of src/simple_bus_master_direct.cpp, src/simple_bus_master_blocking.cpp
--     and src/simple_bus_master_non_blocking.cpp.
--   Masters/Loops: those masters as modules (their headers are in simple_bus_headers), and their endless
--     loops for a number of rounds.
--   MemMips, Wrapper: include/mem_mips.h, and include/mem_mips_bus_wrapper.h, which calls it over the
--     bus.
--   Mips: include/mips_v0.h and include/definitions.h. The register file and lo and hi are cells of the
--     memory that the bus points into, since the processor passes their addresses on.
--   System: the unit and the memory as slaves of one bus, as in the part of src/main.cpp that is
--     commented out.
--   System/Main: sc_main of src/main.cpp as it stands, with the unit alone.
--   System/TestBench: simple_bus_headers/simple_bus_test.h.
--   Masters/Threads: several masters on one bus. A step is a call of a thread or an edge of the clock.
--   Isa: the instructions that use the registers and pc alone, as the architecture defines them, and
--     their words with the codes of the architecture; what the processor is compared with. Its effect is
--     the same without the overflow traps and with register 0 cleared before an instruction, as in the
--     two programs, through which they are compared with each other.
--   Simulator: the untimed simulator of MipsCpp/ (mips.cpp, mips.h, memoria.cpp, main.cpp), of which the
--     processor was made.
--   Examples: tests on concrete systems, such as the one that src/main.cpp builds.
--
-- State and representation. A request pointer is the position of the request in m_requests, from
-- which nothing is ever removed. The memory of the masters is a function from cells to words, and a
-- data pointer is the number of a cell. A word is its 32-bit pattern, a natural number below 2^32, and
-- signed32 reads it as an int. The host is little endian, and its int wraps around. What stops the
-- program, or is undefined in C++, is a Fault: a failed assertion, an exit, an access outside an array,
-- a bad division.
--
-- Time and fuel. SystemC is a library and not part of the repository. A thread that is alone waits for
-- its transfer in Bus/Blocking: in each cycle main_action runs at the falling edge, then the slaves'
-- processes at the rising edge. The fuel of such a wait is a number of cycles. A word whose slave makes
-- it wait n times takes n + 1 cycles, for which every fuel above n is enough; a call that hangs waits
-- still for every fuel. An endless loop of a test master has the number of its rounds as an argument, and
-- the timeout between two rounds is as many cycles of a clock of 1 ns. The processor's run has a second
-- number, of the instructions that it may execute, and uses the first also for the characters of a string
-- that it prints. The simulator's run has one number, of the instructions.
--
-- Not modelled: what is printed when verbose, dump_mem of mem_mips.h, the text of messages, and the
-- SystemC kernel.
pub mod Prelude
pub mod Types
pub mod Arbiter
pub mod Bus
pub mod FastMem
pub mod SlowMem
pub mod Word
pub mod Mdu
pub mod Masters
pub mod Isa
pub mod MemMips
pub mod Mips
pub mod Simulator
pub mod System
pub mod Wrapper
mod Examples

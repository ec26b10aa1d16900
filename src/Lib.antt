-- ===== src/Lib.antt =====
-- Simplex hides values in the bounds registers of Intel MPX: a client that no longer checks pointers
-- with BND0 to BND3 keeps words in them, out of the reach of memory errors. This is a model of its C
-- code with the theorems that make it correct.
--
-- The parts and how they interact. A process calls the runtime (simplex/lib/mpxrt.c), which asks the
-- processor by CPUID (simplex/include/cpuid.h) whether it has MPX and sets the configuration register
-- BNDCFGU through XRSTOR; the kernel module (simplex/eval/kmod/simplexkm.c) does the same when it is
-- loaded. After that the process reads and writes the registers by the eight functions of
-- simplex/lib/simplex.c, which go through 16 bytes of stack at -0x80(%rsp). Clients of those functions
-- are the unit tests (simplex/test/simplex_test.c) and the string functions of the benchmark
-- (simplex/eval/benchmark/simplex_string.cpp), which find their pointers in BND1 and BND2. The
-- benchmark prepares buffers for them, and also times two assembly routines that traverse a buffer, one
-- with its two bases in general registers and one with them in BND0 and BND1.
--
-- Base: library names, Boolean tests, 64-bit words (Base/Words) and C's bitwise operations (Base/Bits).
-- Machine: the processor as one record (bounds registers, BNDCFGU, BNDSTATUS, XCR0, CR4.OSXSAVE, RSP,
--   byte memory, stderr), and the instructions that the assembly blocks of simplex.c use, as functions
--   of it; Machine/Bytes and Machine/Stores are 64-bit loads and stores and their laws.
-- Bounds: simplex/lib/simplex.c. Bounds/Accessors has getbndl, getbndu, getbnd and qgetbndl,
--   Bounds/Mutators has setbndl, setbndu, setbnd and qsetbndl, each with its `switch` and its default
--   branch. Bounds/Api has the interface of simplex/include/simplex.h as one type of calls and what the
--   calls promise. Bounds/Interrupts writes the same functions as code of single instructions, between
--   any two of which signal handlers run, Bounds/Threads lets two threads take turns at them, and
--   Bounds/Differ and Bounds/Secrecy compare two machines that hold different words in one register,
--   and Bounds/Traces says which register each pair of accessors leaves traceless. Bounds/Disabled and
--   Bounds/Stale are about the calls while MPX is off, Bounds/Refused about those on no register.
--   The other modules are named for what they prove.
-- Cpuid: simplex/include/cpuid.h (__get_cpuid_max as get_cpuid_max, and so on); Cpuid/Vendor has the
--   vendor signatures, Cpuid/Features the feature bits in their groups.
-- Runtime: Runtime/Support has check_mpx_support, Runtime/Xsave the structures of
--   simplex/include/mpxrt.h with xrstor_state and xgetbv, Runtime/Saves xsave_state, Runtime/Directory
--   the numbers of the bounds directory for both architectures, Runtime/Process enable_mpx,
--   disable_mpx, process_specific_init and process_specific_finish. Runtime/Lifecycle is a process that
--   calls all functions in any order, Runtime/Session one that initialises, calls and finishes, and
--   Runtime/Branches one whose calls, returns and jumps come between the instructions.
-- KernelModule: simplex/eval/kmod/simplexkm.c with the lines that it prints. The module carries copies
--   of the library's code: KernelModule/Structs has those of simplexkm.c, KernelModule/Cpuid,
--   KernelModule/Features and KernelModule/Directory those of simplex/eval/kmod/simplexkm.h.
-- TestSuite: simplex/test/simplex_test.c, as a run that collects its assertions.
-- SimplexString: simplex/eval/benchmark/simplex_string.cpp. SimplexString/Libgcc has the functions that
--   take pointers, SimplexString/Hidden those that take them from the registers;
--   SimplexString/Footprint is about where the loops write.
-- Benchmark: randomize and corrupt of simplex/eval/benchmark/benchmark.cpp; Benchmark/Fixtures has
--   SetUp and TearDown of its StringFixture, Benchmark/Bodies the benchmarks between them,
--   Benchmark/Spared and Benchmark/Footprint are about where those write, Benchmark/Traverses has SetUp
--   and the benchmarks of TraversalFixture, Benchmark/TraversalFixture its whole run, and
--   Benchmark/LoadStore the LoadStoreFixture. The random numbers, what malloc and mmap returned, the word from
--   /dev/urandom, the C library's memcpy and free, and what syscall and munmap do are parameters.
-- ResultTables: simplex/eval/benchmark/json_to_csv.py, from the parsed output of the benchmark to rows.
-- Traversal: simplex/eval/benchmark/gptraverse.S and simplex/eval/benchmark/mpxtraverse.S, each from
--   its entry to its last `pop`. Traversal/Rounds is about the loop that both run, Traversal/Frame
--   about what they push and pop, Traversal/Gp and Traversal/Mpx about each, and Traversal/Together
--   about both.
-- The modules called Samples and Examples hold concrete machines and processors, and runs on them.
--
-- State and errors. A function of simplex.c is a function from a machine to its result and a machine. A
-- function that executes XRSTOR or XGETBV ends in an outcome, a result with a machine or a fault. Words
-- are numbers below 2 ^ 64 and wrap as written; an address is such a word, and a region may wrap where
-- a theorem does not say that it ends within memory. `bndreg_t` is its number, so that calls with one
-- that names no register are covered. The loops of C recur on the rounds left. The loop of the
-- traversals takes fuel, one unit for a round: half the size is enough, and where that is 0, 2 ^ 64,
-- since the counter wraps.
--
-- Hypotheses. IsMachine says that registers hold 64 bits and memory holds bytes; IsReady adds that MPX
-- is on; IsHosted says that the operating system has enabled XSAVE with the two components of MPX. What
-- a processor answers to CPUID is a parameter, and so is which components it has in use when XSAVE
-- runs. IsHonest says that one that is not in use is in its initial configuration, and IsMemcpy and
-- IsFree what the C library documents of memcpy and free. Agrees says that a signal handler leaves the registers, which the
-- kernel restores, and the red zone, the 128 bytes below the stack pointer that the ABI keeps from
-- handlers. A branch without a BND prefix gives the bounds registers their initial state unless
-- BNDPRESERVE is set: Runtime/Branches models this and what process_specific_init does about it; the
-- other modules suppose that branches keep the registers. Threads have stacks whose red zones do not
-- meet, and registers of their own, which the operating system saves and restores. IsKernel says that
-- arch_prctl points GS at the page that mmap returned and changes no other register of the model.
-- IsOrder says that the numbers of the JSON compare as an order, as they do unless one is NaN.
--
-- Memory has no bounds: a benchmark of more than 4 MB goes on behind its buffers, which C leaves undefined,
-- so the theorems on StringFixture are about sizes up to 4 MB. The XSAVE area of enable_mpx and disable_mpx is a
-- value beside memory, and not the bytes of the stack buffer that holds it until they return.
--
-- Not modelled: what a compiler may put between two assembly blocks of one function; page faults; bound
-- checks and #BR, which no function makes; the state components of XRSTOR other than those of MPX; on a
-- 32-bit processor anything but the numbers of the directory; macros that nothing uses (UPPER,
-- REG_IP_IDX, XSAVE_OFFSET_IN_FPMEM); of simplex/eval/benchmark the framework that calls the
-- benchmarks; the patches of third-party programs, and the recorded results.
pub mod Base
pub mod Benchmark
pub mod Bounds
pub mod Cpuid
pub mod KernelModule
pub mod Machine
pub mod ResultTables
pub mod Runtime
pub mod SimplexString
pub mod TestSuite
pub mod Traversal

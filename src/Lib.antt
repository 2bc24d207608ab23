-- ===== src/Lib.antt =====
-- Verification of the C runtime of Kira.
--
-- Kira programs run in a virtual machine or as native code. Native code links against the C runtime in
-- packages/kira_native_bridge/src and the native libraries in foundation/NativeLibs; this library
-- models that C code. A generated program spawns tasks on the cooperative executor and passes
-- tagged values (`KiraBridgeValue`) through it; the command line of a Kira program is read with the
-- argument parser, files are read and written through the file system library, and native functions
-- are called through libffi.
--
-- Common.antt and its children: numbers, lists, options, integers and C strings as lists of bytes.
--
-- ArgumentParser.antt: foundation/NativeLibs/ArgumentParser/argument_parser.c. A token is `none` for
-- NULL or the bytes before the terminator; `malloc` is a parameter that answers by size.
--
-- BridgeValue.antt: `KiraBridgeValue` of packages/kira_native_bridge/src/runtime_helpers.c.
--
-- Task.antt and Task/: packages/kira_native_bridge/src/runtime_helpers_tasks.inc. A `KiraTask *` is an
-- index into the list of tasks ever allocated, since tasks are freed only at exit; the statics of the
-- file are the record `Executor`. Operations are programs of a state monad whose outcomes are a
-- result, a trap (`abort()` with its message), a fault (an access that C leaves undefined) and lack of
-- fuel. Queue.antt has the clock, registry and ready-queue, Run.antt `kira_task_run_one`, Api.antt the
-- exported operations. The thunks, the state-machine bodies, the allocator's answers and the monotonic
-- clock are fields of `Env`; a thunk or body may call every operation of the executor itself. What
-- theorems ask of them is `IsTame` (they act like code that only calls these operations, a thunk when it gets an argument
-- block and a body when it gets a frame) and `IsClock`
-- (the clock does not run backwards, a sleep lasts as long as asked). The loop of a join and the
-- final drain end only if the callbacks let them and take fuel from the caller; Task/Ends.antt counts
-- the turns that a join needs where the callbacks are `IsQuiet` (they return, call no operation of the
-- executor, and a body is suspended a bounded number of times). The loop of a wait gets two rounds,
-- which is enough with such a clock. A completed sleep is assumed: the code
-- ignores an interrupted `nanosleep` and then loops again. Trace output is left out.
--
-- Memory.antt: the heap of the bridge and its allocator hooks (`kira_bridge_alloc`, `kira_bridge_calloc`,
-- `kira_bridge_free` of runtime_helpers.c). An address maps to an allocation with its size; a free of
-- a wrong size faults where a hybrid runtime has installed its allocator. A fresh buffer reads as
-- VOID elements; no operation reads an element before it writes it. Sizes are 64 bits and wrap around.
--
-- Array.antt and Array/: packages/kira_native_bridge/src/runtime_helpers_arrays.inc. Array.antt has the
-- operations on elements, Array/Owned.antt those that own elements. An array is well formed
-- (`IsArray`) when its buffer has max(cap, 1) elements of the size that the VM computes from the
-- capacity. What theorems ask of an allocator is `IsAllocator`. The loops of a release and a clone
-- read the length and the buffer pointer once: an element destructor is taken not to change the
-- header of the array. `kira_trace_log` is left out, and so is a NULL value or out-parameter.
--
-- Strings.antt and Strings/: the string primitives of runtime_helpers.c on the heap of Memory.antt. A
-- number is printed with at most 20 digits, which are enough for 64 bits; the loop of
-- `kira_string_index_of` is recursion on the positions that are left. Float.antt has
-- `kira_string_from_f64`: "%.*g", `strtod` and the comparison of doubles are fields of `Floats`, the
-- precisions are tried from 1 to 17, and `IsFormat` is what theorems ask of the texts: that they are
-- short, and without an exponent or in scientific notation.
--
-- Output.antt and Output/: printing, tracing and the hooks of the live mode in runtime_helpers.c. The two
-- streams are the bytes written so far; the environment and "%g" are parameters, and a call of a hook is
-- an entry of a list. Effects.antt describes each call by itself.
--
-- RawHeap.antt and RawHeap/: blocks of bytes for the C code that works on raw memory. `malloc`'s answer is
-- an argument of each call, and `IsFree` says that it is a free address.
--
-- NativeState.antt and NativeState/: packages/kira_native_bridge/src/runtime_helpers_native_state.inc.
-- A token is an index into the tokens ever allocated, and no index is given out twice; the allocator's
-- answers are arguments of each call, and the release hook of interiors is a parameter. Lock.antt has
-- the mutex of the registry: threads interleave one access to the shared memory at a time, and the
-- walk along the list under the lock is one step. Of the payload of a token only the size is kept. Struct.antt has `kira_struct_alloc` and its kin,
-- Hybrid.antt `kira_hybrid_call_runtime`; the virtual machine that it calls is a parameter.
--
-- DynamicFfi.antt and DynamicFfi/: packages/kira_native_bridge/src/dynamic_ffi_helpers.c. The root has
-- the generic call and the call builder, Search.antt the search for libffi on Linux, Results.antt what
-- the typed invokes return, Access.antt the typed reads and writes of memory as little-endian bytes,
-- and Quad.antt `kira_ui_write_quad`. The loader, the environment, the symbols, the verdict of
-- `ffi_prep_cif`, the word that a call leaves in the result slot and the arithmetic on `float` are
-- parameters; the calls that libffi is asked to make are a list. The two calls of fixed types pass an
-- `int32_t` as the slot; it is taken to be wide enough. Copies.antt has the span of floats, the copy
-- of a C string and the wrappers of `calloc` and `free`; the wrappers of the loader are left out.
--
-- FileSystem.antt and FileSystem/: foundation/NativeLibs/FS/fs.c and fs.h, the POSIX branches. The
-- kernel and `malloc` are fields of `System` over a state of their own. Theorems see the state as a
-- `Disk` of files and open descriptors, as the names in a directory, or as the tree of paths `Dirs`.
-- What theorems ask of a system is `IsPosix` (open, read, write and fstat act on a disk),
-- `IsAllocator`, `IsStream` (readdir gives the names of a directory in turn), `IsTree` (removal) and
-- `IsMkdir`; `Progresses` says that a write takes some bytes. An allocation may fail at any call;
-- `ReadFailure`, `WriteFailure` and `ListFailure` say which call can fail for the file or directory at
-- hand with the disk as it is, and `OutOfMemory` that `malloc` can fail at a heap with finitely many
-- allocations (`IsFinite`), since on a full heap every allocator fails. The `int` that
-- counts the names of a listing faults where it would overflow.
-- Reads run with the size of the file and one as fuel, which is enough since each round takes a byte
-- or ends; the loops that write, list and remove take fuel from the caller, and the theorems say how
-- much is enough. An error of `readdir` is its end, as in the code, and one process uses the disk at a
-- time.
--
-- Not modelled: the Windows branches of fs.c, dynamic_ffi_helpers.c and runtime_helpers.c; the installers
-- of the closure destructor and of the array allocator, which store a function pointer; everything
-- written in Zig, among it the compiler, the virtual machine and the tools; third_party/sokol.
pub mod Common
pub mod ArgumentParser
pub mod BridgeValue
pub mod Task
pub mod Memory
pub mod Array
pub mod Strings
pub mod Output
pub mod RawHeap
pub mod NativeState
pub mod DynamicFfi
pub mod FileSystem

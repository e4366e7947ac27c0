-- ===== src/Lib.antt =====
-- dpcpp_trace records the calls that a SYCL program makes of its plugin interface, prints and replays
-- what was recorded, and serves a debugger of the replayed program.
--
-- The parts, and the modules that model them:
--
--   Trace: the file of one thread, a sequence of frames, each a 32-bit size and a protobuf message
--   (tools/schemas/api_call.proto; `serialize` of lib/plugin_record/record_handler.cpp). Trace/Api has
--   the messages, Trace/Stream `std::ifstream` with its two flags, Trace/Frame one frame, and Trace/Read
--   `parseTraceFile` of src/print.cpp.
--   Record: lib/plugin_record/record_handler.cpp. Record/Args is `collectArgs`, Record/Recorder the
--   state of `RecordHandler` and what all handlers share, Record/Handlers, Record/Memory and
--   Record/Binaries the handlers, and Record/Dispatch the choice of the handler and the timestamps.
--   Record/Threads is lib/plugin_record/record.cpp: `tpCallback` over the handlers of all threads and
--   the files that they append to, with `xptiTraceInit` and `deinit`. Record/Calls, Callbacks,
--   Points and Interleaving are about what a call, a callback and a run of callbacks leave in a
--   thread's file.
--   Interception: lib/system_intercept/threads.cpp, the names that `pthread_create` gives; Names is
--   about the names of all threads.
--   Replay: lib/plugin_replay/replay.cpp, the plugin that answers a program's calls from the trace.
--   Replay/Plugin has its state, with memory and files, and `ensureTraceOpened`, `getNextRecord` and
--   `dieIfUnexpected`; Replay/Platform, Objects, Kernels and Enqueue have one function for each `pi...`
--   function; Replay/Table is the table of `piPluginInit`, as a type of calls. Below it, Adequate says
--   which records hold what a call needs, and Refuses, Returns and Session are about all the calls.
--   RoundTrip: what the recorder wrote, as the replayed program gets it back, and from the creation of
--   threads to what the printer reads (RoundTrip/Threads).
--   Gdb: src/debug_server, the server of the GDB remote protocol. Gdb/Hex is the text of packets;
--   Gdb/Debugger the interface include/debug/AbstractDebugger.hpp, the system's files, and the state of
--   `GDBServerProtocol`; Gdb/Packets, Transfer and Running the handlers; Gdb/Dispatch `processPacket` and
--   the loop of server.cpp. Modes, Serving, Threads, Slices and Contents are about sequences of packets.
--   Archive: `pack` and `unpack` of src/pack.cpp and src/unpack.cpp, from the version byte on.
--   Options: lib/utils/options.cpp, one round and one parser for each command.
--   Print: the performance summary of src/print.cpp, and the lines of `printTrace` (Print/Order, and what
--   a reader makes of them in Print/Groups). Print/Call is `printRecord`, Print/Image `printImageDesc`,
--   Print/Directory `printTrace` as a whole, and Print/Recorded about a directory that was recorded.
--   Print/Shown is about the lines of the records, Print/Described about those of the binaries, and
--   Print/Summary, Times and Columns about the summary. Print/Args and Print/Flags are
--   src/pretty_printers.hpp.
--   Main: src/main.cpp, the choice of the command and the exit code.
--   Graph: lib/graph_dump/graph_dump.cpp, `tpCallback` for each kind of event over `GraphGlobalData`.
--   Tracer: lib/utils/Tracer.cpp. Tracer has `readString` and `writeString`, Tracer/Memory what is relied
--   on of ptrace, Tracer/Rounds, Text and Stack what the two loops do, Tracer/Worker `wait` and the loop
--   of `fork`; Redirect is about one call that is served, Run and Files about a child from start to exit.
--   Tracer/Launch has `traceMe`, both sides of `fork`, `launch`, `start` and `wait`; Session is about the
--   parent's `fork`, `start` and `wait` in turn, and Tracer/Filter about the system calls that the
--   filter stops at.
--   Commands: src/record.cpp, src/replay.cpp, src/debug.cpp and the first half of src/pack.cpp, up to
--   the launch of the program or the writing of the archive, and `which` of lib/utils/utils.cpp. Same is
--   about a recorded program that is replayed, Environment about its variables, and Copies and Packed
--   about the files that `pack` copies and `replay` puts in the place of others.
--   HostDebugger: lib/debug/host/HostDebugger.cpp over LLDB. Registers is the block of all registers,
--   with Block and Restore about it; Running, Description, Breakpoints, Launch, Lifetime and
--   Process are the other operations, Live is about the breakpoints of the process, and Cast is
--   include/utils/RTTI.hpp.
--   Tests: concrete inputs.
--
-- How they interact: the recorder's output bytes are the bytes that the readers of Trace and Replay
-- start from, and the files of memory objects that it keeps are those that the replay opens; the server
-- calls the debugger, whose world is a parameter. The commands read the options of Options, write the
-- configuration and the environment that they read back, and hand the tracer their handlers.
--
-- State and errors. Streams, files, memory (a byte at every address), the heap's next block and the two
-- maps of the plugin are passed on explicitly. A run of the plugin returns, leaves by `exit(-1)`, or is a
-- fault, where the C++ code has undefined behaviour; the server's handlers reply, throw, or are undefined.
-- Pointers and handles are numbers; native integers are written with their wrap-around.
--
-- Fuel. `parse_trace_file` runs the loop for two rounds more than the file has bytes; each round
-- but the last takes four bytes at least off an open file, so that this is enough for any file that
-- was opened. `write_string` has a round for each byte of the text and one more, of which it needs
-- one for eight bytes. `read_string` and `worker` take their bound, since neither ends for every
-- child: the theorems say which bound is enough. `which` has a round for each byte of PATH, and
-- one.
--
-- Parameters: protobuf's serializers with their round trip, also before a zero byte, which the
-- readers leave behind the message; the numbers of the runtime's enumerators; regular expressions;
-- the formatting of numbers by fmt; the debugger and the system's files; ptrace and waitpid; the
-- file system, std::filesystem's paths and nlohmann's JSON; LLDB; pthread's names, with their limit;
-- the kernel's machine for filters; the table of pi.def and std::sort; the contents of variables
-- that are read before they are written. No block is freed in the model's heap and none is empty.
-- What a stream of a trace file is given shows in the file when it is flushed, and not before.
--
-- Not modelled: what is printed to the console beside a trace, a call and a binary's description; a
-- `pthread_create` that fails; the mapping of files and the allocation behind buffers, which are calls
-- of the system; how the XPTI framework comes to call the recorder and the graph's subscriber; and
-- the tests and benchmarks, which are not part of the program.
mod Prelude
pub mod Trace
pub mod Replay
pub mod Record
pub mod RoundTrip
pub mod Gdb
pub mod Archive
pub mod Options
pub mod Print
pub mod Graph
pub mod Tracer
pub mod Commands
pub mod Interception
pub mod Main
pub mod HostDebugger
pub mod Tests

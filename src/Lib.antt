-- ===== src/Lib.antt =====
-- tiny_cp: a user-space TCP/IP stack over a TUN interface.
--
-- The program is a library for one process. A `TcpStack` owns the control blocks of all sockets,
-- and runs one thread, the daemon, which flushes what sockets have written, reads packets from its
-- loopback queue and from the interface, and retransmits. Threads of the application call the
-- sockets; they meet the daemon in the byte rings of a control block and in the three tables.
--
-- What models what, with paths from the repository's root:
--   Base       shared names; C's comparisons and machine words, `std::unordered_map` as an
--              association list, a memory as a function, masks and shifts as arithmetic
--   Buffer     BlockingBuffer.h, the byte ring of either side of a socket. `Buffer.Queue` is the
--              bounded queue that `Buffer.Run` compares it with, over sequences of calls
--   Checksum   utils/Checksum.cpp (OnesComplementChecksum, ComputeTcpChecksum)
--   Text       what the programs use of the text streams of C++
--   Address    IPv4.h (IPv4Address and from_string); `Address.Print` the print_ip of
--              PrintIPv4Header
--   Wire       BE16 and BE32 of the two views
--   Tcp        TcpPacket.h, TcpPacket.cpp (TcpHeader, TcpPacket) and TcpPacketView.h
--   Ipv4       IPv4Packet.h, IPv4Packet.cpp (IPv4Header, IPv4Packet) and IPv4PacketView.h
--   Tcb        TransmissionControlBlock.h
--   Tables     SocketTable, ListenerTable and ConnectionTable (.h and .cpp)
--   Tun        TunDevice.cpp, over what the system calls return; `Tun.Device` opens and closes
--   Stack      TcpStack.h and TcpStack.cpp: `State` its fields, `Output` the packets it makes
--              (write_packet_, send_control_packet_, send_raw_rst_), `Send` process_block_,
--              process_dirty_blocks_ and check_retransmissions_, `Ports` allocate_ephemeral_port,
--              `Handlers` one handler per state, `Input` process_incoming_packet_ and
--              read_incoming_packets_, `Close` close_connection and register_connection, `Daemon`
--              one round of lifecycle_, `Hooks` what a test build adds. `Stack.Delivery` joins output
--              and input, and `Stack.Invariant` is what holds of the stack between two steps
--   Socket     TcpSocket.h and TcpSocket.cpp, the calls of the application
--   System     the daemon and the calls as one relation of steps, and runs of it; `Hearing`,
--              `Transfer` and `ThreeWay` join two stacks
--   Logger     utils/Logger.h and utils/Logger.cpp; `Transcript` is a run of the logger
--   PacketDump PacketDump.cpp: `Loop`, `Stuck` and `Replay` are about DumpFromFile
--   Benchmark  throughput_benchmark.cpp, over what send and recv return
--   HttpClient http_client.cpp, over what the calls of the socket return
--   Workload   main.cpp; `Waiting` is about its loop
--   LoadTest   load_test.cpp: `Counting` the counters, `Threads` and `Report` what is added to them
--   Samples    two hosts, at which the theorems are tried out
--
-- How code is modelled. A method that changes its object takes the object and returns the new one
-- beside its result. Names are those of the code, without the trailing underscore of private ones. An
-- unsigned integer of w bits is a natural number with its wrap-around written out, and the `int32_t`
-- counter `retransmit_attempts` is its 32-bit pattern. A pointer into the
-- socket table is the block that was found, and a write through it is a store under its id. A method
-- that waits on a condition variable returns `none`, and a handler that does so ends in `waits`, with
-- the write that it has to go on with; `connect` ends before its wait, and `connect_returns` is the
-- predicate of that wait. A caller's span is a memory and a size. The operating system, the random
-- generator and the contents of uninitialised arrays are parameters (`Host`, `Os`, `Poll`).
--
-- Bounds and fuel. The folding loop of the checksum runs on fuel 2 (`Checksum.fold_rounds`): a
-- 32-bit sum folds to at most 17 bits, and then to at most 16. Every other loop of the
-- library is structural: over the bytes of a buffer, the 16384 rounds of the port search, the ids of
-- the queue, the packets of a batch. The daemon's unbounded loop is one round, over the finite list of what its
-- polls find; `System.Run` is any number of steps.
--
-- A program of the repository is modelled by the texts that it prints and the status that it exits
-- with; its banners, its timing and its progress display are left out. The loop of the packet dump
-- runs on fuel, one round more than the file has bytes (`PacketDump.rounds`): a round that goes on
-- moves the offset by the total length of a datagram, so this is enough where that is not 0. A
-- number is written in decimal with at most 20 digits (`Text.max_digits`), which fits 64 bits.
--
-- Not modelled: the test programs, and the system headers of utils/Platform.h. Locks are not
-- modelled: a step is one packet, one pass over the marked blocks, or one call, and steps do not
-- overlap. The two loops of the benchmark share nothing but the connection.
pub mod Base
pub mod Buffer
pub mod Text
pub mod Checksum
pub mod Wire
pub mod Address
pub mod Tcp
pub mod Ipv4
pub mod Tcb
pub mod Tables
pub mod Tun
pub mod Stack
pub mod Socket
pub mod System
pub mod Logger
pub mod HttpClient
pub mod PacketDump
pub mod Benchmark
pub mod Workload
pub mod LoadTest
pub mod Samples

-- ===== src/Lib.antt =====
-- cannelloni: a tunnel for CAN frames over UDP or SCTP.
--
-- The program has two threads. The one at the CAN socket (CANThread) receives frames and gives them
-- to its peer at the network (UDPThread, or SCTPThread, which derives from it). That thread collects
-- them in its frame buffer and sends them, many in a packet, when a timer expires or a packet is full.
-- The other way round, it takes a packet apart and gives the frames to the thread at the CAN socket,
-- whose timer makes it write them. Frames are never copied from one thread to the other: each frame
-- buffer owns a pool of frames; a thread requests one from its peer's buffer, fills it and hands it
-- over by `transmitFrame`.
--
-- Which file models which part:
-- - Frame: `struct canfd_frame` of include/linux/can.h, and cannelloni.h. Frame/Bits: the masks.
-- - Packet: parser.h and parser.cpp. Packet/Build is buildPacket, Packet/Parse is parseFrames, as a
--   monad of state, exceptions and memory faults (Packet/Outcome); Packet/Bytes is the byte order.
--   What these do: Packet/Wire (the writer), Packet/RoundTrip (both), Packet/Safety (the reader, with
--   the callers' invariants), Packet/Deliver (what a caller is meant to see), Packet/Truncation and
--   Packet/Overrun (packets that are not well formed).
-- - FrameBuffer: framebuffer.h and framebuffer.cpp, a method each. A frame is a record with its
--   address, so that lists of pointers become lists of frames. FrameBuffer/Invariant is ownership of
--   frames and the byte count, FrameBuffer/Request the pool's growth, FrameBuffer/Flush and
--   FrameBuffer/Order the way of a packet, FrameBuffer/Steps any sequence
--   of operations, FrameBuffer/Teardown the end of the program, FrameBuffer/Everywhere what holds of
--   each frame, FrameBuffer/Untouched and FrameBuffer/Empty what operations leave alone, and
--   FrameBuffer/Capacity that the counter of bytes does not wrap around. FrameBuffer/Locks has the mutexes,
--   with FrameBuffer/Locks/Order, FrameBuffer/Locks/Progress and FrameBuffer/Locks/Deadlock.
-- - Timer: timer.h and timer.cpp, in microseconds; Timer/Laws.
-- - Connection: connection.h and connection.cpp, the interface of a thread to its peer.
-- - Thread: thread.h and thread.cpp, each access to a flag a step; Thread/Flags.
-- - CanThread: canthread.h and canthread.cpp. CanThread/Start is the constructor, start and stop;
--   CanThread/Calls, CanThread/Transmit and CanThread/Keeps are about transmitBuffer, CanThread/Receive
--   about the CAN socket, CanThread/Rounds and CanThread/Peers about the rounds of run.
-- - UdpThread: udpthread.h and udpthread.cpp. UdpThread/Flush and UdpThread/Keeps are about
--   prepareBuffer, UdpThread/Deadline about transmitFrame, UdpThread/Receive and UdpThread/Deliver about
--   parsePacket. UdpThread/Run is start, stop and a round of run; UdpThread/Rounds and
--   UdpThread/OwnBuffer are about the rounds, UdpThread/Alarm and UdpThread/AlarmRounds about the transmit
--   timer.
-- - SctpThread: sctpthread.h and sctpthread.cpp, a round of run with the results of the kernel as
--   events; SctpThread/Connect is about connections, and the three threads as peers, SctpThread/Keeps and
--   SctpThread/Rounds about the rounds, SctpThread/Sockets about the descriptor m_socket.
-- - TimeoutTable: csvmapparser.h; TimeoutTable/Lines, TimeoutTable/Range (the width of
--   the timeouts), TimeoutTable/Stream (the object with its file stream).
-- - Main: cannelloni.cpp. Main is the options and the checks on them, Main/Setup the table of timeouts,
--   the addresses, the buffers and the threads; Main/Options, Main/Addresses and Main/Ready are about
--   these. Main/Life is main from the start of the threads to its end, Main/Shutdown is about it.
-- - System: the two threads of one program, a round of one of them a step; System/Borrowed (what a round
--   of one leaves alone of the other), System/Invariant (ownership of frames), System/Wakes and System/Alarm
--   (the transmit timer), System/Start (from main to the loops of the threads). System/Sctp is the same
--   over SCTP, with System/Sctp/Reconnects and System/Sctp/Start. Tunnel: two programs, one on each side.
-- - Interleaving: the way from the CAN socket to the network in single accesses of the two threads;
--   Interleaving/Ownership and Interleaving/Safety (frames), Interleaving/Rounds (a round of System is a
--   sequence of these steps), Interleaving/LostWakeup (the transmit timer).
-- - Logging: logging.h, what printCANInfo prints of a frame, in pieces (Logging/Overread), and the name of a
--   source file (Logging/Path).
-- - Prelude: tests, lists and arithmetic that the files share. Tests: runs at concrete inputs.
--
-- State and results. Numbers are natural numbers, with the wrap-around of the source's type written out:
-- `% 2 ^ 64` for size_t and uint64_t, `% 2 ^ 16` for the count of frames, `% 256` for bytes and the
-- sequence number. An `Option` around a result is `none` where the source has undefined behaviour, such
-- as front() of an empty list. What is outside of the repository is a parameter: the calls on a timer's
-- descriptor (of which the results assume that a setting is read back, `ReadsBack`), write(2), the
-- sending of a packet, and what select, accept, recv and getline give.
--
-- Loops run on the list that they consume. The only loop with fuel is that of transmitBuffer, which
-- takes one frame off the buffer in each round; its fuel is the length of the buffer and one more, with
-- which it does not run out.
--
-- Each operation of a frame buffer is one step, since it holds the mutexes of the lists that it uses; in
-- FrameBuffer/Locks the single locks and unlocks are steps. An interleaving of operations is a sequence of
-- steps (FrameBuffer/Steps). System is coarser: there a whole round of a thread is a step, so that it is
-- about runs in which rounds do not overlap. Interleaving is
-- finer, for the way from the CAN socket to the network: each operation of the buffer and each call on the
-- timer is a step of its own, in any order with those of the other thread.
--
-- Not modelled: what is printed for the user but for the frames (printUsage, debug() and the messages), since
-- nothing depends on it; the system calls themselves, whose results are arguments.
pub mod Prelude
pub mod Frame
pub mod Packet
pub mod FrameBuffer
pub mod Main
pub mod Interleaving
pub mod Logging
pub mod System
pub mod Tunnel
pub mod TimeoutTable
pub mod Thread
pub mod Timer
pub mod Connection
pub mod CanThread
pub mod UdpThread
pub mod SctpThread
pub mod Tests

-- ===== src/Lib.antt =====
-- A distributed computing framework: a server hands the work of users to nodes over TCP, and a node
-- computes it on an FPGA that it configures from a bit stream in the message of the user.
--
-- The parts that are modelled, and how they work together:
--
-- Message (server/Message.hpp): the messages of the protocol as they lie in memory, their validity
-- tests, accessors and constructors. A `message_s` is its allocation size, its header and the bytes
-- of its payload; a read or a write outside the allocation is `none`. Message.Build has the
-- constructors, Message.Text and Message.Print the text that is printed of a message, as a list of
-- bytes, and Message.Roundtrip, Message.Data and Message.Bounds theorems.
--
-- Connection (server/Connection.hpp): `receive_message` and `send_message`, which carry messages over
-- a byte stream. The socket is Boost's: it is a parameter, `Connection.Interface.Socket`, and
-- `SocketLaws` is what Boost documents of `async_read_some` and `async_write_some`. Coroutines that
-- only await the socket are functions of its state. Connection.Pipe is a socket that meets the laws.
-- Connection.Closing has `close`, with what Boost documents of a closed socket, and
-- Connection.Identity the identifiers `Connection::ID`.
--
-- Container (server/Queue.hpp, server/Stack.hpp): the containers on which coroutines wait for ready
-- nodes. The two classes are one model with two ways in. A coroutine is a number; its wait on the
-- timer, its wake-up and its resumption are separate steps of the relation `Run`, so that others may
-- run in between. Counter (server/Counter.hpp, server/Event.hpp) is modelled the same way, with a list
-- of operations for a run.
--
-- Fpga (node/FPGAconfig/alt_fpga_manager.c and writeConfig.hpp): the driver that configures the FPGA.
-- The hardware is a parameter, `Fpga.Bus.Device`, a state with a read and a write of each register;
-- nothing is assumed of it, and a read may change it. Fpga.Manager has the operations on control,
-- state, reset, pins and interrupts and the polling loops, Fpga.Data the transfer of the data,
-- Fpga.Configure the thirteen steps of a configuration, one function per phase. Fpga.Steps has the
-- device that logs what is written to it.
--
-- SafeQ (utils/include/safeQ.hpp): the queue between threads. A thread takes one step at a time, the lock
-- or one access to the `std::queue`; `Run` is the relation of the runs of any number of threads, with
-- the calls that have ended, and a program that calls only guarded operations is a condition on it.
-- SafeQ.Sequence is the contract: operations that are indivisible.
--
-- User (server/User_Queue.hpp, server/User_Stack.hpp): the session of a user, in models that share
-- Container, Counter and Message. User.Start: `start`, which waits for the first configuration, and goes
-- on from the configured nodes to the main loop. User.Setup: `_configure_nodes`, with the outcomes of
-- the configurations in any order. User.Protocol: the messages of the session over the sockets of the user
-- and the nodes: `_configure_node`, the tests of `_main_loop`, a round of `_receiver_loop`. User itself:
-- how the inputs are handed to the nodes; the state holds the coroutines that wait for a node or for a
-- socket, and `User.steps` runs a list of events, in any order, in which the success or failure of a
-- socket is an event. User.MainLoop: the phases of `_main_loop` with the receiver loops, and the change
-- of the configuration.
--
-- Server (server/Server.hpp): the pool of nodes, which goes to the first user; what the acceptors give
-- is an event.
--
-- Block (utils/src/Block.cpp, utils/include/utils.hpp): the writes of a range of the FPGA's address space,
-- on lists of words, with what an assignment of Boost's `uint128_t` does as a parameter; and Block.Work, the
-- thread that takes chunks of data from a queue, lets the block on the FPGA compute them and puts the
-- results into another queue. The address space is a parameter;
-- `BlockLaws` is what is assumed of the block, that it computes a function within a number of polls.
-- Block.Stopping is the state by which another thread stops the block, in steps of both.
--
-- BlockBench (test/main.cpp): the program that measures eleven blocks: where they lie, the chunks that it
-- pushes through them, and the collection of the results.
--
-- BenchNode (server/test_node.cpp, and the configuration that server/test_user.cpp sends): a node without an
-- FPGA, over a Connection. BenchNode.Delivery follows an input through the node and the server.
--
-- BenchUser (server/test_user.cpp): a user that sends inputs with the time in them and tests the results,
-- and what its two loops count, with the errors at which they close the connection.
--
-- Prelude: Boolean tests and lists over the native numbers, little-endian words, memory as a list of
-- bytes.
--
-- Numbers: sizes are those of LP64, `uint32_t` wraps at 2^32 where the source computes on it, and 64-bit
-- sizes do not wrap (they are sums of a few 32-bit numbers). Registers are written with masks of 32
-- bits.
--
-- Loops: the timeouts of the driver are its own bounds, and the loops are recursion on them. The loop of
-- a transfer takes the length as fuel, since each round takes four bytes; the loop over a stream takes
-- one more than the data limit, since each round that goes on takes a byte from it; a read and a write of
-- a connection take one more than the bytes they move, since each call of the socket without an error
-- moves one. That this is enough is part of the theorems on these functions.
--
-- The wait of a block takes the polls it may make as fuel; the loop that takes the nodes out of a container
-- takes one more than the nodes; a loop that prints rows takes one more than the bytes, since each row
-- has one. The index of such a loop is an `int` of 32 bits, which wraps around.
--
-- Not modelled: the order in which one coroutine is suspended for another beyond what the steps of the
-- models say, since that is Boost's; the console output other than that of messages; the release of
-- memory; the node's start-up (node/main.cpp) and the files and commands of utils/src/utils.cpp, which
-- are calls of the operating system; the delays and throughputs of the test programs, and the wait for
-- the response in server/test_user.cpp, which is the end of `_configure_node` again; the branches of the
-- driver for DMA, which the build leaves out, and the vendor's DMA library; the mapping of the registers
-- into memory.
pub mod Prelude
pub mod Message
pub mod Connection
pub mod Container
pub mod Counter
pub mod Fpga
pub mod SafeQ
pub mod User
pub mod Server
pub mod Block
pub mod BlockBench
pub mod BenchNode
pub mod BenchUser

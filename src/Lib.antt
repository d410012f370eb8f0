-- ===== src/Lib.antt =====
-- A model of thunder-chat: chat servers that broadcast what their users write, and managers that relay
-- messages from each chat server to the others.
--
-- The parts, and the file that models each (paths from the root of the repository):
--   * CircularBuff.antt: src/CircularBuff.cpp, the receive buffer of a connection. `put`, `get`,
--     `get_header`, `resize` are Put(const char *, int), Get, GetHeader, Resize; Fill.antt has
--     Put(Socket *) in the edge-triggered version, which the builds select. Bounds, Write, Read, Header,
--     RoundTrip and Grow hold the invariant and the theorems.
--   * CircularQueue.antt: src/CircularQueue.cpp, the queue between threads. Fifo compares it with a bounded
--     list; Threads runs any number of senders and receivers; Waiting has the condition variables.
--   * Socket.antt: Read, Write, Send and Recv of src/Socket.cpp, and CNPUtil::Write of src/NPUtil.cpp.
--   * Packet.antt: include/Packet.h, the packets between chat servers and managers as bytes.
--   * Message.antt: src/BroadcastMessage.cpp.
--   * Client.antt: src/Client.cpp, src/ChatUser.cpp and src/ClientServer.cpp. `execute_command` is
--     ChatUser::ExecuteCommand; Commands, Packets and Relayed hold its theorems.
--   * Receiver.antt: a round of src/ThreadReceiver.cpp, from a connection of the queue to its next
--     registration with epoll. Messages, Stuck and Overflow hold its theorems.
--   * ChatServer.antt: the list of clients and the broadcast of src/ChatServer.cpp, with the acceptance test
--     of src/ThreadAcceptor.cpp. Writes, RelayPacket, Broadcast, Dangling, Accounts and Sessions hold its
--     theorems; Threads has its threads between their statements; Negotiation and Split
--     are NegotiationWithManager, ConnectToMgr and split.
--   * EventLoop.antt: the event loop that both servers have in their `Run`, with the interest list of
--     src/IOMP_EPoll.cpp and what the threads of src/ThreadReceiver.cpp and src/ThreadWorker.cpp do with a
--     connection. It takes what it calls of a server as a record, which ChatServer/Loop.antt and
--     Manager/Loop.antt fill; their LoopSafety.antt apply the theorems of Steps, Handling, Ownership and Safety.
--   * Manager.antt: src/ClientChatServer.cpp, MessageBroadcast of src/ChatManager.cpp and the loop of
--     src/ThreadWorker.cpp; Manager/Accounts.antt has the list of connections of src/ChatManager.cpp. Relay,
--     Packets, Worker, Hello and Connections hold the theorems; Threads has the threads between their
--     statements.
--   * Listing.antt: the lists of connections that both servers keep, and the loop of HealthCheckUsers, which
--     nothing calls; Counts has the lemmas on the count beside them.
--   * Properties.antt: src/Properties.cpp, with LTrim and RTrim of src/NPUtil.cpp.
--   * ServerInfo.antt: what src/ServerInfoDN.cpp and src/ServerInfoDNMgr.cpp take from the settings. Names
--     has the names of the settings, Bandwidth the reading of a bandwidth; Ports and Texts hold theorems.
--   * ByteOrder.antt: GetByteOrder, Get2Byte and Get4Byte of src/NPUtil.cpp, on hosts of both byte orders.
--   * Utilities.antt: the functions on texts of src/NPUtil.cpp.
--   * Process.antt: src/Process.cpp; Supervision has the servers that a manager starts and replaces.
--   * NpLog.antt: src/NPLog.cpp, the log file with its backups; Names, Kept and Keeping hold its theorems.
--     LogDump has the dumps; Dump, Lines, Byte and Loop hold theirs. Formats.antt: the conversions of sprintf.
--   * EndToEnd.antt: a message's way from the users of one chat server to those of another.
--   * Prelude.antt, Ring.antt, Kernel.antt, Delivery.antt: shared names, arrays and copies, the answers of
--     system calls, and who gets what. Tests.antt: the theorems at concrete inputs.
--
-- How the parts interact: epoll hands a readable connection to a receiver thread (a worker thread in a
-- manager) through a queue; the thread fills the connection's buffer from the socket and executes commands
-- until the buffer has nothing more; a user's bytes become a message on the broadcast queue; a broadcaster
-- thread writes it to the other users and, as a packet, to the managers; a manager writes the packet to the
-- other chat servers, which broadcast its message to their users.
--
-- Conventions. A block of memory is the list of its bytes. `none` (or a constructor such as `outside` or
-- `crashed`) is a copy outside a block or a call through a null or dangling pointer. The answers of system
-- calls are given as lists, over all of which the theorems range. A call that a mutex guards is one step.
-- Neither server guards m_iConnCount: ChatServer/Threads.antt and Manager/Threads.antt interleave its
-- test and its updates with the guarded parts of the other threads, and let updates be lost.
-- `accept_client`, `close_client` and their like in a manager are whole calls, run without another thread; the
-- event loops (EventLoop.antt) take them as single steps, which is enough for who holds a connection, since
-- that does not depend on the count. An entry of m_lstChatManagerSocket whose socket has been deleted is a
-- `deleted_socket`. MessageBroadcast of a manager runs on a list that stays as it is meanwhile, although it
-- takes no mutex: what a deletion during the walk does is not modelled. The host is little-endian, except in
-- ByteOrder.antt. Fields of type int are natural numbers where an invariant keeps them small, and integers where they can be negative; the counts of
-- connections are far below 2^31, since descriptors are. The loops over one connection's buffer run on
-- fuel: the theorems on them say how much is enough, or that no fuel is.
--
-- Not modelled: the assertions, the kqueue and select wrappers, the handlers of signals, the set-up of sockets, the
-- clock, SHA-256 (a copy of another implementation), shared memory, the HTTP posts, the queues outside the build, and the disabled sender thread.
pub mod ByteOrder
pub mod ChatServer
pub mod CircularBuff
pub mod CircularQueue
pub mod Client
pub mod Delivery
pub mod EndToEnd
pub mod EventLoop
pub mod Formats
pub mod Kernel
pub mod Listing
pub mod Manager
pub mod Message
pub mod NpLog
pub mod Packet
pub mod Prelude
pub mod Process
pub mod Properties
pub mod Receiver
pub mod Ring
pub mod ServerInfo
pub mod Socket
pub mod Tests
pub mod Utilities

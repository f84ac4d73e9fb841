-- ===== src/Lib.antt =====
-- yvent, a library for network servers around one event loop per thread.
--
-- The parts and the files that model them (paths are from the root of the repository):
--   Buffer        yvent/Buffer.h, Buffer.cpp: the byte queue between a socket and its user.
--                 `make_space` is makeSpace, `read_fd` readFd, and so on, by the same words.
--                 Buffer/Contents says what a valid buffer holds; Slices, Retrieve, Search and Input
--                 have the lemmas on each group of calls.
--   Codec         example/chat/codec.h: frames with a length header. Frames is the sender's side,
--                 Receive the loop of onMessage, Stream a whole connection read in chunks.
--   Http          yvent/http: Request is HttpRequest, Context HttpContext, Response
--                 HttpResponse, Server HttpServer. Server/Answers, Server/Chunks and Server/Refusals say
--                 what a client hears. Context/Lines is the parser over bare bytes, Refine connects it
--                 with the one over a buffer; Resume, Extends and Midway are about a request of which a
--                 part has come. Context/Fields, Headers and Written are about the text of a request
--                 as a client writes it, RoundTrip about what the parser makes of it.
--   Channel, Poll yvent/Channel.*, yvent/Poll.*: events and `epoll`. Poll/Sync compares a channel with
--                 what the kernel watches.
--   TcpConnection yvent/TcpConnection.*: a connection. Its effects are listed in a trace. Ports says what
--                 a live connection is, Flow and Sends are about sending, Drain about writing what
--                 waited, Life about the beginning and the end.
--   Timer         yvent/Timer.*, yvent/TimerQueue.*: the timers of a loop, with the heap that they live in and
--                 callbacks that add and cancel timers. Order is about the set, Heap about the timers, Sound
--                 about which timers a queue owns, Calls about the calls of a callback, Batch about
--                 handleRead, Quiet and Runs about callbacks that cancel nothing, Destruct about the
--                 destructor.
--   EventLoop     yvent/EventLoop.*: the tasks of a loop and its wakeups, as steps of threads. Safety
--                 and Wakeup are about what the loop may sleep on and the order of tasks. Threads is
--                 about which loop belongs to which thread, Timers about runAt, runAfter and runEvery.
--   Logging       yvent/Logging.*: the lines that are written, in an array on the stack.
--   ThreadPool    yvent/EventLoopThreadPool.*: the loops of a server.
--   Connector     yvent/Connector.*: an attempt to connect.
--   LoopThread    yvent/EventLoopThread.*: the start of a thread with a loop, as steps of two threads, and
--                 the quit of others.
--   InetAddr      yvent/InetAddr.*: an address and its port, in network order.
--   Acceptor, TcpServer
--                 yvent/Acceptor.*, yvent/TcpServer.*: the connections of a server. Names is about the names
--                 that they get, Held and Reached about the connections that are open, Entries and Forgotten
--                 about those that are closed, Stuck and Early about one that is closed too early.
--   TcpClient     yvent/TcpClient.*: a client, its connection and its messages.
--   WebServer     example/WebServer/WebServer.cpp: a server of files.
--   Chat          example/chat/server.cpp and client.cpp: a server that hands messages on, and its client.
--                 Broadcast is about one message, Relay about the bytes of a connection, Talk about a
--                 message on its way from one client to another.
-- Prelude, Fault, Word and Text have what these share: lists and tests on numbers, the ways in which a
-- call can stop, `size_t`, strings and maps. Tests has examples.
--
-- A connection reads with `Buffer.read_fd` into its input buffer and calls a user's callback, such as the
-- codec or the parser, with that buffer; it sends from its output buffer when its channel, through
-- `Poll.update_channel`, has asked for EPOLLOUT. A failed assertion is a value of `Result`, and so is the
-- exception of a vector that would be too large.
--
-- Bounds: sizes are below the largest size of a vector, 2 ^ 63 - 1; where a sum can pass 2 ^ 64, the
-- wrap-around is written out. Loops that may not end have fuel: `Codec.on_message` needs one round for each
-- message and one more, `parse_request` as many as the buffer has bytes and one more; both are proved to be
-- enough. Host order is little-endian. A server counts its connections up to 2 ^ 31 - 1.
--
-- Parameters: the addresses that `new` gives to timers, the answers of `readv`, `write`, `sendfile` and
-- `epoll_wait`, the clock and the process in a line of the log, the kernel behind `epoll_ctl`, the connection
-- of the codec, the callbacks, the text of an address, `fstatat` and `openat`
-- of the WebServer.
--
-- Not modelled: the wrappers of system calls in yvent/Socket.*, which abort on an error, the programs of
-- testcase, and the functions `main`. Where a part logs, its model leaves the line out, and a fatal message is
-- the fault `fatal`. A user's callback that calls the same object again is a further operation, not part
-- of the call that it comes from; only the callbacks of timers, the connection callback of a server, the
-- callback of an HttpServer and the message callbacks of the chat are called in the model.

pub mod Prelude
pub mod Fault
pub mod Word
pub mod Text
pub mod Buffer
pub mod Codec
pub mod Http
pub mod Channel
pub mod Poll
pub mod TcpConnection
pub mod Timer
pub mod ThreadPool
pub mod EventLoop
pub mod Tests
pub mod Connector
pub mod LoopThread
pub mod InetAddr
pub mod Logging
pub mod Acceptor
pub mod TcpServer
pub mod TcpClient
pub mod WebServer
pub mod Chat

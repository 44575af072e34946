-- ===== src/Lib.antt =====
-- SimpleTcp is a C++ library of TCP servers and clients over epoll. A thread owns an event loop
-- (src/net/EventLoop.cpp); the loop polls a registry of channels (src/net/Epoller.cpp), each of which
-- is one descriptor with its interest and callbacks (src/net/Channel.cpp), runs the handlers of the
-- channels that are ready, and then the tasks that were queued. A connection
-- (src/tcp/TcpConnection.cpp) is a socket with a channel and a buffer for each direction
-- (src/tcp/TcpBuffer.cpp); its channel's events become calls of its handlers, and it asks for write
-- events while bytes wait. A client (src/tcp/TcpClient.cpp) is a state machine that makes a connection
-- and reconnects, with timers of the loop (src/net/Timer.cpp, src/net/TimerQueue.cpp).
--
-- Every handler is a function from a state to an outcome (Prelude/Effects): it returns with a new
-- state, throws with the state it had changed so far, aborts the process, reaches memory outside an
-- object, or is still in a loop when its fuel is used up. `assertTrue` aborts in a debug build and
-- only logs in a release build (include/base/Log.h), so that the build is a parameter. The calls of the
-- system are parameters too: what `::read`, `::write`, `epoll_ctl`, `epoll_wait` and the others come
-- to is handed to the handler that makes the call, and so are the user's callbacks.
--
-- Buffer: class TcpBuffer, a vector and two positions. `read_from_socket` is readFromSocket, and so
-- on; Buffer/Memory holds the vector's bounds. `make_room`, the only loop, takes fuel: two rounds
-- are enough wherever it ends at all (Buffer/Append).
-- Epoller, Channel: the registry, the interest mask and the dispatch; std::sort is a parameter. A
-- channel together with its loop's registry is a `Port`.
-- EventLoop: startLoop as `start_loop`, one round of it as `turn`, over the answers of `epoll_wait` as
-- a list; doPendingTasks, runInLoop and the test of the thread.
-- Connection: class TcpConnection, over a `Port` and two buffers. `sent` records what the kernel took.
-- Client: class TcpClient; what it does with its connection is a list of effects.
-- Timer: classes Timer and TimerQueue. What a callback does when its timer fires is a parameter.
-- Pool, Server: classes EventLoopPool (src/net/EventLoopPool.cpp) and TcpServer (src/tcp/TcpServer.cpp),
-- which accepts connections and gives each to a loop of the pool.
-- Strings: the helpers of include/base/StringHelper.h and the searches of std::string_view. The loops of
-- `strip` and `split` take fuel, as many rounds as the text has bytes and one or two more.
-- Socket: class Socket (src/net/Socket.cpp), over the list of the descriptors that are open.
-- Compress: the wrappers of src/base/Compress.cpp over zlib, which is a parameter (`Zlib`); what zlib's
-- manual says of its calls are hypotheses (Compress/Manual), which the coder of Compress/Copying meets.
-- Http: the enumerations of include/http/HttpCommon.h, and class HttpResponse
-- (src/http/HttpResponse.cpp): headers, validation, generateResponse (Http/Generate) and
-- setContentByFilePath (Http/Files), whose two compressors are parameters that Http/Unpacked fills.
-- Request: parseHttpRequest and its two parts (include/http/HttpRequest.h, src/http/HttpRequest.cpp).
-- Request/Scan holds the numbers and ranges, Request/Settings what parseHeaders takes from the map, and
-- the loop over the headers takes one round more than the text has bytes as fuel. A result is a value,
-- RequestError, another exception, an access outside a text, or a loop that used up its fuel.
-- HttpServer: onMessage of class HttpServer (src/http/HttpServer.cpp) on a connection of Connection,
-- with the parser of Request and the responses of Http; the user's handler is a parameter.
-- Workers: class ThreadPool (include/base/ThreadPool.h), one turn of a worker at a time.
-- LogServer: classes LogServer and LogBuffer (src/base/LogServer.cpp, src/base/LogBuffer.cpp); the flush
-- thread is the function `flusher`, one step between two moments at which the lock is free.
--
-- Bytes, descriptors and addresses of objects are natural numbers; arithmetic on `size_t` in Buffer
-- and in the index of Pool wraps at 2 ^ 64. Threads appear as the argument that says which thread
-- calls; locks, and the wait of runInLoop for its task, are left out, so that a handler is one step.
-- The order in which an unordered map is traversed is a parameter of generateResponse. Positions in a
-- text are what is left behind them, where a search goes on from a position.
-- Not modelled: log output, dumps and formatting, backtraces, the wrappers of system calls (EventFd,
-- FileDesc), the date header, and the copy of tl::expected.
pub mod Prelude
pub mod Buffer
pub mod Epoller
pub mod Channel
pub mod EventLoop
pub mod Connection
pub mod Client
pub mod Timer
pub mod Pool
pub mod Server
pub mod LogServer
pub mod Workers
pub mod Strings
pub mod Compress
pub mod Socket
pub mod Http
pub mod Request
pub mod HttpServer

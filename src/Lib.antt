-- ===== src/Lib.antt =====
-- Ladder: a C++ library for TCP servers and clients. Its core is the path of bytes between a socket
-- and the program, and this library models that path on a little-endian Linux host, and of the Windows
-- build the plain connection (Iocp).
--
-- The parts and their files, with paths from the repository's root:
--   Prelude     shared names, Boolean tests, lists of bytes, 32-bit words (`htonl` is `swap32`, a
--               `uint32_t` is a number cut by `u32`), the error numbers that the code tells apart
--   Utils       ladder/src/utils.cpp: the search for a pattern in a text
--   Buffer      ladder/src/Buffer.cpp: a vector with a read and a write index, and the loops that
--               fill it from a descriptor and drain it into one
--   Codec       ladder/src/codec/Codec.cpp: packets of a length, a checksum and data, cut from the
--               input buffer by `OnMessage`
--   Protobuf    ladder/src/codec/ProtobufCodec.cpp: a message as the data of a packet, and the
--               handlers by message type
--   Channel     ladder/src/Channel.cpp: the poll flags of a descriptor and the dispatch to callbacks
--   Connection  ladder/src/Connection.cpp: two buffers and a channel, with the handlers of input,
--               output and closing
--   TlsConnection
--               ladder/src/TlsConnection.cpp: what a connection with TLS does in place of sending,
--               reading and writing, over an engine
--   Iocp        ladder/src/Connection.cpp on Windows, with the completions that EventLoop.cpp takes
--               from the port: one write under way at a time, and the counts of the operations
--   FileBuffer  ladder/src/FileBuffer.cpp: a queue of headers and files, and the loop that sends it
--   Client      ladder_client/src/TcpClient.cpp, Connector.cpp and Timer.cpp: the states of a client,
--               and its attempts to connect with growing waits between them
--   ArgumentParser
--               ladder/src/ArgumentParser.cpp: the options of a command line
--   GZip        ladder/src/GZip.cpp: the loops that compress a text or a file with zlib
--   Http        examples/http: http_defs.h (Tables), HttpCodec.cpp (Split, Message, Codec), and
--               HttpServer.cpp with server.cpp (Mime, Server)
--   Logging     ladder/src/Logging.cpp and ladder/include/Logging.h: the queue of lines of a logger
--               and the thread that prints them
--   ThreadPool  ladder/src/ThreadPool.cpp: the queue of tasks and the threads that run them
--   EventLoop   ladder/src/EventLoop.cpp and EventPoller.cpp: the loop over the channels that are
--               active, its start and its stop
--   TcpServer   ladder/src/TcpServer.cpp and Acceptor.cpp: the connections of a server, from their
--               acceptance to their end
--   MemoryPool  ladder/src/MemoryPool.cpp: the free blocks, and the one instance of the pool
--   LoopPool    ladder/src/EventLoopThreadPool.cpp: the loops that take new connections in turn
--
-- How they meet: the poller reports flags to a channel (`set_revents`, `handle_events`), which calls
-- the connection's handlers; `on_read_callback` fills the read buffer and calls the program, whose
-- read callback may be a codec's `on_message`, and which answers by `send`; `send` and
-- `on_write_callback` drain the write buffer. The fields `accepted`, `sent`, `arrived`, `registered`,
-- `close_calls` and the two `..._is_shut` of a connection are no members of the class: they note what
-- crosses its boundary.
--
-- Conventions. A byte is a number; nothing depends on its being below 256 but the conversions of
-- words. What the kernel answers is a list of replies, so any sequence of partial reads and writes,
-- errors and ends of stream is covered. A read outside a packet is `fault`, an exception `thrown`,
-- `EXIT` the status `ended`. Of a client, `pending` and `attempts` note what the kernel keeps and what
-- it was asked for, and `broken` the use of a null pointer.
--
-- Bounds and fuel. The loops over system calls are recursions on the list of replies; a list that
-- ends too early gives `waiting` or `starved`, which no run of the code has; one reply per byte is
-- enough where each call takes something. `on_message` runs on fuel: each round but the last takes
-- at least eight bytes from the buffer, so a fuel above the number of readable bytes is enough. The
-- search in a text and the making of its table run on twice a length and one more: each round of
-- either loop moves a place on or shortens the match. The fuel of the loop over zlib's output is
-- enough above what zlib puts out for a piece, and that of `encrypt` above what the TLS engine has for
-- the peer; the loops over a text given to that engine have a round per byte. The indices of a buffer are 32-bit numbers that wrap:
-- theorems on what is in it ask that less than 4 GiB pass through it.
--
-- Parameters, since their code is elsewhere: `crc32` of zlib (`Crc`), the protobuf runtime
-- (`Runtime`, with its `Documented` for what the code relies on), the virtual functions of a codec
-- (`Format`), the file system (`files`, what `open` finds under a name), zlib's
-- streams (`Zlib`), OpenSSL's engine with its memory buffers (`Engine`), and what `fprintf` makes of
-- a text as its format (`Fprintf`).
--
-- Threads. A pool, a loop and a server are driven by events in any order, each of which is what one
-- thread does while it holds a lock, or between two looks at the shared state; `schedules`, `turns`
-- and the like name whose turn it is. In the other modules each operation is one step, since locks
-- only serialize them.
--
-- Not modelled: the kqueue build, and the Windows build but for a plain connection; a connection over
-- a file buffer; the registration at epoll; the file and the one instance of the logger; the wrappers
-- of the socket calls; the programs that only call the library.
pub mod Prelude
pub mod Buffer
pub mod Codec
pub mod Protobuf
pub mod Channel
pub mod Connection
pub mod Client
pub mod MemoryPool
pub mod Logging
pub mod LoopPool
pub mod FileBuffer
pub mod EventLoop
pub mod TcpServer
pub mod ThreadPool
pub mod GZip
pub mod ArgumentParser
pub mod TlsConnection
pub mod Utils
pub mod Http
pub mod Iocp

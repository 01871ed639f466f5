-- ===== src/Lib.antt =====
-- A model of parts of CPP-Linux-Server, a C++ server framework (chat/): its byte buffer, the wire
-- formats of HTTP/2 that are written to that buffer, WebSocket messages over a stream, the table of
-- events that fibers wait for, the scheduler of fibers, the timers, the descriptor contexts and the load balancers.
--
-- How the parts interact: the HTTP/2 frames (chat/http2/frame.cc) and the header compression
-- (chat/http2/hpack.cc) read and write a ByteArray (chat/bytearray.cc); hpack keeps its headers in the
-- DynamicTable (chat/http2/dynamic_table.cc). The WebSocket messages (chat/http/ws_session.cc) go
-- through readFixSize and writeFixSize (chat/stream.cc) and share the byte swaps of the buffer. The
-- I/O manager, the scheduler, the timers, the descriptor contexts and the load balancers stand alone.
--
-- ByteArray and the files below it: chat/bytearray.h, bytearray.cc, endian.h. The record ByteArray
-- has the members of the class, the chain of nodes as a list of blocks and m_cur as the index of its
-- node; a byte that nothing has written is 256. Code that may throw or crash is in the monad M: an
-- outcome is a value, out_of_range (the exception) or fault (a null pointer, undefined behaviour).
-- write, read, set_position, add_capacity are the functions of those names; ByteArray/Fixed and
-- ByteArray/Varint have the integer and string functions. ByteArray/Stream has the flat sequence with
-- a cursor that the blocks stand for, and the invariant IsValid; ByteArray/Effects says what a client
-- states of its own readers and writers. The loops are structural on the chain; the varint loops have
-- the room of the source's array, 5 or 10 bytes, as fuel.
--
-- Http2/Frame: FrameHeader and the payloads of chat/http2/frame.h, with header_write, data_read and
-- so on for FrameHeader::writeTo, DataFrame::readFrom and so on. Unions are their whole words.
-- payload_write and payload_read are the dispatch of FrameCodec::serializeTo and parseFrom.
--
-- Http2/DynamicTable: the static and the dynamic table; update, find_pair, find_index, get_pair.
-- An int32_t is its 32 bits, so update wraps and compares as the machine does.
--
-- Http2/Hpack: write_varint and read_varint are WriteVarInt and ReadVarInt; Http2/Hpack/Fields has the
-- strings, Pack, parse and pack, over an interface Huffman for the Huffman code. A uint64_t takes at
-- most ten groups of seven bits, the fuel of those loops; parse has its length as fuel, since each
-- field takes at least a byte.
--
-- Timer: Timer and TimerManager of chat/timer.cc, over a heap of timers and a list of addresses in the
-- order of the set; the clock is an argument, a callback is a number.
--
-- FdManager: FdCtx and FdManager of chat/fd_manager.cc, with fstat and fcntl as a parameter.
--
-- Stream: readFixSize and writeFixSize of chat/stream.cc as read_fix_size and write_fix_size, over a
-- Link: what has arrived, in pieces, and how much each write takes. A round of a loop moves a byte
-- at least, so the loops have the size as fuel. Stream/Delivery is about them.
--
-- WebSocket: the frames of chat/http/ws_session.h, and WSRecvMessage, WSSendMessage, WSPing and WSPong of
-- ws_session.cc as recv_message, send_message, ping and pong. A round of recv_message that goes on reads
-- two bytes at least, so its fuel is one more than the bytes to come. The int cur_len is negative from 2^31
-- bytes on; the write outside of the data that it then allows is undefined, so what it comes to is a
-- parameter, the field undefined of Config. Frames and Fragments follow the
-- frames of a message, Messages puts the two sides together, Reads, Limits and Rounds are about any
-- bytes.
--
-- IoManager: the FdContext table of chat/iomanager.cc with addEvent, delEvent, cancelEvent, cancelAll
-- and the handling of a report in idle (dispatch), one at a time as under the lock of a descriptor.
-- Table has what holds between two of them, fewer than 2^31 contexts among it (in_table tests their
-- number as an int); Operations, Cancelling and Reports show it for each, Reachability for all their
-- sequences.
--
-- Scheduler: the queue of chat/scheduler.cc and a round of the loop of run, with the states of
-- chat/fiber.cc; what a fiber does while it runs is an argument. Picking is about the choice of an entry,
-- Running about a round.
--
-- LoadBalance: the items of a service, the round robin and the weighted balancer, the ring of statistics
-- and onServiceChange (Discovery) of chat/streams/load_balance.cc. Weights and stream states are
-- arguments.
--
-- Base: tests on numbers, lists measured by native numbers, bit operations as arithmetic. The modules
-- called Runs have concrete runs.
--
-- Not modelled: locks and threads, but for operations in any order on the table of events; floats
-- (copied bit by bit), the iovec and file functions of the byte array; the stream around the frame
-- codec; the Huffman code, HTTP/2 streams and windows, HTTP messages, servlets, the WebSocket
-- handshake, the service discovery itself, the switches of fibers; logging, configuration, sockets,
-- process control, gRPC, Kafka and ZooKeeper clients (I/O and calls of libraries); the parsers that
-- Ragel generates; the copies of libaco, libco and fcontext.
pub mod Base
pub mod ByteArray
pub mod FdManager
pub mod Http2
pub mod IoManager
pub mod LoadBalance
pub mod Scheduler
pub mod Stream
pub mod Timer
pub mod WebSocket

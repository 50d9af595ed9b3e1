-- ===== src/Lib.antt =====
-- lssvc is a live streaming server: connections bring bytes, a message buffer keeps them, the RTMP
-- context turns them into messages chunk by chunk, and the services above it pass audio and video
-- on to the players. The files follow that path.
--
-- * Bytes models src/mmedia/base/bytes_reader.cpp and bytes_writer.cpp (readUint8T ... writeUint32T),
--   over lists of bytes. A read that the list is too short for is `none`.
-- * MsgBuffer models LSSMsgBuffer (src/network/base/lssvc_msgbuffer.cpp): the vector with its start
--   and write index, and every operation on it. An access outside the vector is `none`, so that a
--   theorem that an operation yields `some` says that it stays within it. `read_fd` takes what
--   `readv` returned as a list. MsgBuffer.Invariant and MsgBuffer.Refine compare it with a plain
--   list of bytes.
-- * TimingWheel models LSSTimingWheel (src/network/net/lssvc_timing_wheel.cpp): insertion into the
--   four wheels, the destructor of an entry, which runs its task, and onTimer. Pointers count: a
--   timeout that several slots share runs when the last reference goes. The destructors recurse at
--   most to `destroy_depth` = 2, enough but for an interval above 30 days, which the source would
--   follow without end.
-- * EventLoop models LSSEventLoop and LSSEvent (src/network/net/lssvc_eventloop.cpp, lssvc_event.cpp,
--   lssvc_pipe_event.cpp): the registry of events, what epoll watches, and whose handlers a batch of
--   ready descriptors calls. epoll is a parameter, of which EpollLaws says what its manual does; a
--   descriptor is an int32_t pattern and an event object a number. EventLoop.Queue is enqueueTask,
--   runTask and one turn of loop, with the wheels of TimingWheel; the lock makes each of them one step.
--   The handlers are a parameter: any function of the state.
-- * ThreadPool models LSSEventLoopThreadPool (src/network/net/lssvc_eventloop_threadpool.cpp).
-- * TcpServer models TcpServer (src/network/tcp_server.cpp) with the onClose of its connections, and
--   the opening of an acceptor (src/network/net/lssvc_acceptor.cpp) and of the pipe on the same loop: an
--   operation is one step of the loop's thread, so that a run is a sequence of steps in any order.
-- * TcpClient models TcpClient (src/network/tcp_client.cpp): its states and its socket, with what the
--   base connection does while it is closed and while it is not.
-- * Address models LSSInetAddress (src/network/base/lssvc_inetaddress.cpp), with inet_pton as a
--   parameter. A port has at most the five digits of a uint16_t.
-- * Udp models LSSUdpSocket (src/network/net/lssvc_udp_socket.cpp); as for Connection, what the kernel
--   answers is a list, one answer for each call, and `asking` is a loop that asks for one more. A
--   datagram without bytes is taken with the answer 0, as one with bytes is with a count above 0.
-- * Tasks models LSSTask and LSSTaskMgr (src/utils/lssvc_task.cpp and lssvc_taskmgr.cpp).
-- * Connection models LSSTcpConnection (src/network/net/lssvc_tcpconn.cpp): the buffers it has still to
--   write, onWrite and both forms of sendInLoop. What the kernel answers is a list, one answer for
--   each call; `calling` is a loop that asks for one more. `none` is an access outside a buffer.
-- * Handshake models RtmpHandShake (src/mmedia/rtmp/rtmp_handshake.cpp), client and server.
--   HMAC-SHA256 is a parameter, of which only the length of a digest is used; the random bytes and
--   the clock are arguments. The two packets are kept without the version byte. In
--   Handshake.Exchange packets arrive in parts, and handShake is tried on what is there.
--   Handshake.Phase is what parse and onWriteComplete of src/mmedia/rtmp/rtmp_context.cpp make of it.
-- * Double models readUint64T and writeNumber: a double is its 64 bits, and the conversion that
--   readUint64T makes leaves whole numbers, which are kept as such.
-- * Strings models LSSString (src/utils/lssvc_string.cpp); the fuel of `split` is one more than the
--   bytes, and every round takes the separator at least.
-- * Amf models src/mmedia/rtmp/amf: the decoders of AMFObject and the classes of values, with
--   the lookups in Amf.Lookup and the encoders of AMFAny in Amf.Encode. `undefined` is a read behind
--   the message, or a double that no uint64_t holds. The fuel of `decode` is one more than the bytes:
--   an object or element that is nested is shorter by its type.
-- * Chunk models the RTMP chunk stream of src/mmedia/rtmp/rtmp_context.cpp.
--   Chunk.Receive is one round of the loop of parseMessage, Chunk.Loop the loop with
--   messageComplete. The fuel of the loop is one more than the bytes, and every round takes one at
--   least. The handlers behind messageComplete get a list of events. `none` is a read outside the readable
--   bytes. The maps that share a chunk stream id are one record, Channel.
--   Chunk.Send is buildChunk with the queues of packets and nodes; its fuel is one more than the
--   length of the message, since a node holds a byte at least where the chunk size is not 0.
-- * Commands models the commands of RtmpContext in src/mmedia/rtmp/rtmp_context.cpp, from sendConnect
--   on: Commands what is sent and how names are taken apart, Commands.Receive handleUserMessage and
--   handleAmfCommand with the handlers of the commands. Messages go out through the queue of
--   Chunk.Send. `none` is a null pointer that is used, or an access outside a packet.
-- * Live models src/live: Live.Corrector is TimeCorrector, Live.Gops is GopMgr, Live.Headers is
--   CodecHeader, Live.Stream is LiveStream with what it keeps of a PlayerUser, Live.Session is
--   LiveSession, Live.Service is LiveService with the configured applications as an argument, and
--   Live.RtmpPlayer is RtmpPlayerUser, which hands the frames to
--   Chunk.Send. A lock makes an operation one step, so an interleaving of threads is a list of steps.
--   Frame indices stay below 2^31 and times below 2^63; the conversions to 32 bits are written out.
--   The clock is an argument.
--
-- Not modelled: threads and their start, the wrappers of socket calls with what an acceptor does after
-- an error, the UDP client and server, logging, files and configuration, which are input and output.
-- The lifetime of the memory that a node points to is left out: a buffer is its bytes.
pub mod Common
pub mod Bytes
pub mod MsgBuffer
pub mod TimingWheel
pub mod Tasks
pub mod EventLoop
pub mod ThreadPool
pub mod TcpServer
pub mod TcpClient
pub mod Address
pub mod Udp
pub mod Connection
pub mod Handshake
pub mod Double
pub mod Strings
pub mod Amf
pub mod Chunk
pub mod Commands
pub mod Live

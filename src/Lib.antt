-- ===== src/Lib.antt =====
-- A verification library for tiny_rpc, an RPC framework over TCP: an epoll event loop for each thread
-- (src/net/eventloop.cc) runs the connections (src/net/tcp), which read bytes into a buffer, cut it
-- into messages (src/net/coder), let the dispatcher call a service (src/net/rpc), and send the answers.
--
-- Files and what they model:
--   Base      Boolean tests, lists over the native numbers, byte strings, `std::map`, outcomes.
--   Address   src/net/tcp/ipv4_net_addr.cc.
--   Buffer    src/net/tcp/tcp_buffer.cc. TcpBuffer has the fields of the class; its abstract view is
--             Buffer/Contents.contents, the bytes between the two indices.
--   Coder     src/net/coder/protobuf_coder.cc, src/include/net/coder/protobuf_protocol.h. Encode and
--             Decode are the two functions; Wire, Fields, Packet and Append prepare RoundTrip; Noise
--             and Malformed are about input that no encoder writes.
--             StringCoder is src/include/net/coder/string_coder.h. AbstractCoder is the interface
--             with its promise, which Tcp/Transfer builds on, and its two implementations.
--   Config    src/common/config.cc; the XML document is a parameter.
--   Rpc       src/net/rpc/rpc_dispatchor.cc and rpc_controller.cc, src/include/common/error_code.h.
--             The protobuf library is the record Rpc/Protobuf, a parameter.
--   Reactor   src/net/fd_event, src/net/eventloop.cc, src/net/io_thread; IoThread and
--             ThreadGroup are step relations. Deleting is about what the kernel watches behind
--             delete_epoll_event.
--             WakeUp is src/net/wakeup_fd_event.cc and the callback that answers it; Interleaving is
--             the loop of eventloop.cc beside other threads, a step relation: the lock of the queue is
--             the field `adding`, and each read, write and task is a step.
--   Timer     src/net/time/timer.cc and time_event.cc.
--   Tcp       src/net/tcp: Connection, which joins the parts above, Client (tcp_client.cc), Acceptor and
--             Server (tcp_acceptor.cc, tcp_server.cc).
--             InParts is about packets that arrive in two reads.
--   Channel   src/net/rpc/rpc_channel.cc and rpc_closure.cc: the call of a client. Its lambdas are
--             functions on the record Call; Once and Timeout run them in any order; Receiving and
--             Sending are the reads and writes of the client's connection with these lambdas, and
--             RemoteCall and WholeCall join a call with the connections of both sides.
--   Mutex     src/include/common/mutex.h.
--   MsgId     src/common/msg_id_utils.cc.
--   Logging   src/common/log.cc: LogEvent is the text of a line and the macros, Delivery the way of a
--             line to the file, Start the making of the global logger, Stop the
--             log thread beside the other threads, a step relation.
--   Utils     src/common/utils.cc.
--   Tests     the theorems at concrete inputs.
--
-- How the code is modelled. State is passed explicitly, a record for each class with the names of its
-- members. A byte is a number below 256, a string the list of its bytes, a `std::function` the number
-- that identifies it (`none` if null), and an `int32_t` on the wire its bit pattern, with the
-- wrap-around written out. An access outside an array is `err out_of_bounds`. What the
-- system returns is a parameter: the results of `read`, `write` and `epoll_wait` are sequences, and so
-- are the readings of the clock and the random bytes; what a callback does is a function.
-- An FdEvent is a value where one thread uses it. A task that another thread leaves in a loop holds
-- a shared_ptr to it: there the task has the descriptor, and reads the event from the state, as
-- it is when the task runs (Reactor/EventLoop.run_task).
--
-- Loops. `decode` runs on fuel, one round for each byte that can be read and one more; for the buffers
-- of the round trip that is enough, and where the program itself does not return the model is
-- `stuck`. The loops of `on_read` and `on_write` run along the results of the system calls,
-- and that of the log thread along its readings of the date and of the size of the file.
-- The callbacks at the end of a client's `on_write` run on fuel, and the digits of a number on fuel
-- above the number, which is enough. The reads of the wake-up and timer descriptors run on fuel; two
-- rounds are enough for a descriptor that does what the manual says. All other loops are structural.
--
-- Not modelled: the wrappers of pthread and semaphore calls, but for the order in which the two
-- sides of src/net/io_thread/io_thread.cc go on; destructors that only close descriptors. TinyXML and
-- the protobuf library are not part of the repository's own code. Locks are modelled only in Mutex and
-- Reactor/Interleaving: elsewhere each function runs alone. Ownership is not
-- modelled: an object lives as long as it is used.
pub mod Base
pub mod Buffer
pub mod Coder
pub mod Config
pub mod Mutex
pub mod Address
pub mod Channel
pub mod Rpc
pub mod Reactor
pub mod Timer
pub mod Utils
pub mod Tcp
pub mod MsgId
pub mod Logging
pub mod Tests

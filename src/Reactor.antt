-- ===== src/Reactor.antt =====
-- The reactor: src/net/fd_event, src/net/eventloop.cc and src/net/io_thread.
pub mod FdEvent
pub mod NoBlock
pub mod Listening
pub mod FdEventGroup
pub mod IoThread
pub mod IoThreadGroup
pub mod ThreadGroup
pub mod NewLoop
pub mod EventLoop
pub mod Epoll
pub mod Queue
pub mod WakeUp
pub mod Deleting
pub mod Interleaving

-- ===== src/Tcp.antt =====
-- src/net/tcp: the connections, which join the buffers, the coder, the dispatcher and the loop.
pub mod Socket
pub mod Connection
pub mod Reading
pub mod Answering
pub mod Writing
pub mod Closing
pub mod Client
pub mod Connecting
pub mod Acceptor
pub mod Server
pub mod Serving
pub mod Watched
pub mod InParts
pub mod Transfer

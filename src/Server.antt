-- ===== src/Server.antt =====
-- mimino.c: the server's sockets, connections and queue.
pub mod Send
pub mod Types
pub mod Pool
pub mod Config
pub mod Transfer
pub mod Setup
pub mod Conn
pub mod Loop

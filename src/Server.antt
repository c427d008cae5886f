-- ===== src/Server.antt =====
-- src/server.h: the parts of the server.
pub mod SocketReader
pub mod TripletWriter
pub mod Handle
pub mod Sockets
pub mod Monitor

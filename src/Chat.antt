-- ===== src/Chat.antt =====
-- hw2/chatroom_server.c: the chatroom server.
pub mod Queue
pub mod Room
pub mod Lines
pub mod Process
pub mod Serve
pub mod Server
pub mod Workers
pub mod Send
mod Tests

-- ===== src/WebSocket.antt =====
-- src/websocket.h and src/websocket.cpp: frames, the handshake and the broadcaster of job output.
pub mod Base64
pub mod Frame
pub mod Handshake
pub mod Broadcaster
pub mod Tests

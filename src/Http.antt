-- ===== src/Http.antt =====
-- src/http_server.h and src/http_server.cpp: requests, responses, routes and the handling of a
-- connection, and the server with its accept loop.
pub mod Lines
pub mod Request
pub mod Response
pub mod Receive
pub mod Routes
pub mod Client
pub mod Server
pub mod Tests

-- ===== src/Greeter.antt =====
-- grpcdemo/server_async.cc: the asynchronous Greeter server.
pub mod Tag
pub mod Session
pub mod Server

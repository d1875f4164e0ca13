-- ===== src/Net.antt =====
-- Buffered byte streams over TCP sockets (server/src/reader.cpp, writer.cpp, connection.cpp and
-- their headers; dns/src holds the same text). Sockets are traces of system call results.
pub mod Reader
pub mod Writer
pub mod Connection

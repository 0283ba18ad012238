-- ===== src/Wasicall/Calls.antt =====
-- internal/timemachine/wasicall/codec.go: the methods of Codec, a module for each family of calls.
pub mod Env
pub mod File
pub mod Io
pub mod Paths
pub mod Process
pub mod Sock
pub mod SockInfo

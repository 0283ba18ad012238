-- ===== src/Wasicall/Replay.antt =====
-- internal/timemachine/wasicall/replay.go: a system that answers from a log.
pub mod State
pub mod Equal
pub mod Env
pub mod File
pub mod Io
pub mod Paths
pub mod Process
pub mod Sock
pub mod SockInfo
pub mod Buffers
pub mod Recorded
pub mod Dispatch
pub mod Faithful
pub mod Unanswered
pub mod Steps
pub mod Agrees
pub mod Back
pub mod Strict
pub mod Hints
pub mod Refinement
pub mod Guest

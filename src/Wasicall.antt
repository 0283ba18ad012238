-- ===== src/Wasicall.antt =====
-- internal/timemachine/wasicall: the records of system calls.
pub mod Wasi
pub mod Words
pub mod Scalars
pub mod Lists
pub mod Stats
pub mod Sockets
pub mod Poll
pub mod Iovecs
pub mod Calls
pub mod Syscall
pub mod System
pub mod Recorder
pub mod Fallback
pub mod Observer
pub mod Exit
pub mod Errno
pub mod Replay
mod Tests

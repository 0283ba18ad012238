-- ===== src/Wasicall/Syscall.antt =====
-- internal/timemachine/wasicall: a system call as a value, as the recorder writes it and as the
-- reader decodes it.
pub mod Ids
pub mod Call
pub mod Recorder
pub mod Reader
pub mod Recordable
pub mod RoundTrip
pub mod Unknown
pub mod Log
pub mod Short

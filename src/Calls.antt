-- ===== src/Calls.antt =====
-- The intercepted calls by what their guard tests, and what holds of all of them.
pub mod OnFd
pub mod OnPath
pub mod OnStream
pub mod Local
pub mod KeepFd
pub mod KeepPath
pub mod KeepStream
pub mod PassFd
pub mod PassPath
pub mod PassStream
pub mod Runs
pub mod Early

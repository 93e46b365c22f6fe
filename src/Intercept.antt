-- ===== src/Intercept.antt =====
-- pdwfs.c, the intercepted functions. `Guards` holds the shapes that they share; a function whose
-- name is reserved here or begins with underscores is spelled `open_file`, `xstat` and so on.
pub mod Guards
pub mod Files
pub mod Opening
pub mod Streams
pub mod Lines
pub mod Vectors
pub mod Paths
pub mod Through
pub mod Unsupported
pub mod Opened
pub mod Ended
pub mod Indicators
pub mod Short

-- ===== src/Examples.antt =====
-- The theorems at concrete calls, on the host of `Instance`.
mod OnPaths
mod OnDescriptors
mod OnStreams
mod OfLines
mod Startup
mod OnStore
mod OnFiles
mod OnTree
mod OnOpened

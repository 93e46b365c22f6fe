-- ===== src/Store.antt =====
-- store.go and redis.go of src/go/redisfs: the store of a file's bytes in stripes over a ring of
-- Redis instances.
pub mod Keys
pub mod Redis
pub mod Stripes
pub mod Tiling
pub mod DataStore
pub mod Bytes
pub mod Commands
pub mod Orders
pub mod Contents
pub mod Written
pub mod Size
pub mod Resize
pub mod Stored
pub mod Flat
pub mod Fill
pub mod Read
pub mod Few

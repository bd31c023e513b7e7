-- ===== src/Kv.antt =====
-- kv/: parts of the storage server below the consensus core.
pub mod Codec
pub mod Endian
pub mod Mvcc
pub mod Checks
pub mod Latches
pub mod MetaKeys
pub mod MemStorage
pub mod RawApi
mod Tests

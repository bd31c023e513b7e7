-- ===== src/Raft.antt =====
-- raft/: the consensus core. The data types, the storage that the node reads, the log, the node's
-- transitions, and the interface to the application.
pub mod Types
pub mod Util
pub mod Storage
pub mod Log
pub mod Node
pub mod Step
pub mod Election
pub mod RawNode
mod Tests

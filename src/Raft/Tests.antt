-- ===== src/Raft/Tests.antt =====
-- Concrete nodes and storages, and the theorems at them.
mod Nodes
mod Logs
mod Steps
mod Elections

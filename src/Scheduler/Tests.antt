-- ===== src/Scheduler/Tests.antt =====
-- The theorems on the scheduler at concrete regions, members and clocks.
mod MapEtcd
mod Regions
mod Operators
mod Stores
mod Members

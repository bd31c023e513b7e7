-- ===== src/Scheduler.antt =====
-- scheduler/: the view that the scheduler has of regions, and the ids and timestamps that it gives out.
pub mod Regions
pub mod Tree
pub mod RegionsInfo
pub mod TypeUtil
pub mod Ids
pub mod Timestamps
pub mod Operators
pub mod Stores
pub mod Filters
pub mod Selector
pub mod ReplicaChecker
mod Tests

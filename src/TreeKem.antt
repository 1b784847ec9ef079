-- ===== src/TreeKem.antt =====
-- The group key agreement of treekem.c.
pub mod Tree
pub mod Update
pub mod Members
pub mod Wire
pub mod RoundTrip
pub mod Paths
pub mod Ancestors
pub mod Sealing
pub mod CommitRun
pub mod Install
pub mod Agreement
pub mod Process
mod Tests

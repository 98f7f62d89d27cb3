-- ===== src/Vfs.antt =====
-- The virtual file system of kernel/src/vfs: dentries and inodes in a store, the operations on them
-- (vfs.c, ramfile.c) and the walks along paths (fs.c).
pub mod Store
pub mod Text
pub mod Nodes
pub mod Ram
pub mod Paths
pub mod Lookup
pub mod Walk
pub mod Force
pub mod ForceSteps
pub mod ForceWalk
pub mod Reverse
pub mod Examples
pub mod RoundTrip
pub mod Exhausted
pub mod Removal

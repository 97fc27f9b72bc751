-- ===== src/StoreFs.antt =====
-- nix-store-shared-fuse: the FUSE file system that shows a farm of symlinks into the store as
-- directories and files.
pub mod Realize
pub mod Dirs
pub mod State
pub mod Nodes
pub mod Operations
pub mod Main
mod Examples

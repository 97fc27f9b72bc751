-- ===== src/Prison.antt =====
-- The helpers of the prisons: prison-start/src and nix/prison/user-manager-generator.rs.
pub mod Start
pub mod Users
mod Examples

-- ===== src/Runner.antt =====
-- nix/app/runner.rs: starts one entry of a sandboxed app from its plan.
pub mod Texts
pub mod Wild
pub mod Template
pub mod Mounts
pub mod Plan
pub mod Examples
pub mod Holder
pub mod Lease
pub mod Signals
pub mod Launch
pub mod Session

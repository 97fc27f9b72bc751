-- ===== src/Agent.antt =====
-- ssh-agent-filter: the filtering proxy for the ssh-agent protocol.
pub mod Proto
pub mod Sha
pub mod Policy
pub mod Serve
pub mod Main
mod Examples

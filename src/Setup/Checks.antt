-- ===== src/Setup/Checks.antt =====
-- scripts/agent-setup.py: the checks of what the operator types and of what is downloaded.
pub mod Version
pub mod Hub
pub mod Manifest
pub mod Binary

-- ===== src/Boundary.antt =====
-- The agent-facing boundary (src/yomotsusaka/boundary.py), one module for each of its parts.
pub mod Locator
pub mod Resolver
pub mod Restoration

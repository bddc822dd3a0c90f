-- ===== src/Examples.antt =====
-- The theorems applied to concrete documents, requests and services.
mod Wire
pub mod Documents
pub mod Requests
pub mod Services
pub mod Proposals
pub mod Searches
pub mod Executions
pub mod Batches
pub mod Agents
pub mod Policies

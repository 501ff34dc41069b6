-- ===== src/Tests.antt =====
-- Runs of the model on concrete input, and the theorems at such input.
pub mod World
mod Evaluation
mod Audit
mod Keys
mod Tables
mod States
mod Refusals
mod Paths
mod Files
pub mod Machines
mod Snapshots
pub mod Manifests
pub mod Evidence
mod Gates
mod Bundles

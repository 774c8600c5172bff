-- ===== src/Tests.antt =====
-- Tests on concrete inputs, and each theorem at an input that meets its hypotheses.
pub mod Fixture
mod Applies
mod Configs
mod Packages
mod Clusters
mod Lifecycles
pub mod Sample
mod Resources
mod Sensors
mod Agents
mod Statuses
mod Filters
mod Targets
mod Deletions

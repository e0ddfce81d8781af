-- ===== src/Plugins.antt =====
-- src/sleuthgraph/plugins: what plugins are, the registry, the runner, and the sweeper.
pub mod Base
pub mod Registry
pub mod Checks
pub mod Proposals
pub mod Runner
pub mod Sweeper
pub mod Dispatch
mod Tests

-- ===== src/Remediation.antt =====
-- The remediation agent: services/agent/src/agents/remediation.ts.
pub mod Semver
pub mod Pep440
pub mod Version
pub mod SemverOrder
pub mod Orders
pub mod Propose
pub mod Hint
pub mod Result
pub mod Fixes
pub mod MinFix
pub mod Target
pub mod Least
pub mod Whole
pub mod Complete
pub mod Apply
pub mod Task
pub mod Examples

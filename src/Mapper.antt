-- ===== src/Mapper.antt =====
-- The control mapper of the compliance service, services/compliance/src/control-mapper: predicates,
-- the evaluation of a finding against the rules, and the batch that feeds the POA&M service.
pub mod Types
pub mod Predicates
pub mod Input
pub mod Engine
pub mod Rules
pub mod Tuples
pub mod Summary
pub mod Keys
pub mod Filed
pub mod Examples

-- ===== src/Actions.antt =====
-- The action service: packages/shared/actions/src/index.ts, class ActionsService.
pub mod Types
pub mod Table
pub mod Registry
pub mod Policy
pub mod Replay
pub mod Execute
pub mod Settle
pub mod Service
pub mod System
pub mod Effects
pub mod Endings
pub mod Starts
pub mod Admissions
pub mod Lifecycle
pub mod Invariant
pub mod Safety
pub mod Verdict
pub mod Replaying
pub mod Outcomes
mod Tests

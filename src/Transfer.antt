-- ===== src/Transfer.antt =====
-- src/transfer/transfer.service.ts, with the guards of its four operations. The definitions are in the
-- first children, what is proved in the others.
pub mod Fee
pub mod Locks
pub mod Execute
pub mod Hold
pub mod Capture
pub mod Cents
pub mod LockOrder
pub mod Deadlock
pub mod Runs
pub mod Effects
pub mod Summary
pub mod Failed
pub mod Conserve
pub mod Balances
pub mod HoldEffects
pub mod HoldNonNeg
pub mod HoldRuns
pub mod CaptureRuns
pub mod HoldFailed
pub mod HoldLaws
pub mod HoldCycle
pub mod VelocityRules
pub mod VelocitySets
pub mod CaptureLaws

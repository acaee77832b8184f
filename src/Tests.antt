-- ===== src/Tests.antt =====
-- Small concrete runs of the model.
mod Data
mod Approvals
mod Scope
mod Access
mod Database
mod Control
mod Gates
mod Runs
mod Findings

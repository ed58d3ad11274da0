-- ===== src/Ingest/Approvals.antt =====
-- src/ingest/approvals: the records by which a person approves a plan and a candidate.
pub mod Approval
pub mod Baseline
pub mod Prompt
pub mod Office
pub mod Provenance
pub mod Sealed
pub mod Verify
pub mod Service
pub mod Issued
pub mod First
pub mod Resealed
pub mod Second
pub mod Steps
pub mod Disposal

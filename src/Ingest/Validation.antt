-- ===== src/Ingest/Validation.antt =====
-- src/ingest/validation: the checks of what was generated for a plan.
pub mod Routes
pub mod Planned

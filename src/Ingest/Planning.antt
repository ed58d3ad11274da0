-- ===== src/Ingest/Planning.antt =====
-- src/ingest/planning: the plan of a change, made from its request, and the text that a person reviews.
pub mod Request
pub mod Mode
pub mod Outputs
pub mod Create
pub mod Safe
pub mod Described
pub mod Created

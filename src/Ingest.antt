-- ===== src/Ingest.antt =====
-- src/ingest: the state machine of a change, its hash-chained journal and its store on disk.
pub mod Failure
pub mod Platform
pub mod Effect
pub mod Disk
pub mod Domain
pub mod Journal
pub mod Record
pub mod Store
pub mod Owner
pub mod Lock
pub mod Api
pub mod Schema
pub mod Plan
pub mod Candidate
pub mod Dossier
pub mod Approvals
pub mod Planning
pub mod Validation
mod Tests

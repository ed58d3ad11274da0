-- ===== src/Manganafer.antt =====
-- src/lib/manganafer: the interest form, the export of what it collected, and the quotes.
pub mod Csv
pub mod Interest
pub mod Form
pub mod Quote
mod Tests

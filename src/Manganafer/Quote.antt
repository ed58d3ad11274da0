-- ===== src/Manganafer/Quote.antt =====
-- src/lib/manganafer/quote.ts: the quotes of the calculator.
pub mod Numbers
pub mod Config
pub mod Invoice
pub mod Distance
pub mod Candidate
pub mod Handler
pub mod Best
pub mod Asked
mod Tests

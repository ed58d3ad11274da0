-- ===== src/Routing.antt =====
-- src/lib/routing and src/lib/http: what the Worker does before and after Astro.
pub mod Redirects
pub mod Inventory
pub mod Legacy
pub mod Web
pub mod BeforeAstro
pub mod Policy
mod Tests

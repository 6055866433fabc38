-- ===== src/Services.antt =====
-- internal/services: the business logic between the handlers and the repositories.
pub mod Interfaces
pub mod Collections
pub mod Documents

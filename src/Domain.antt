-- ===== src/Domain.antt =====
-- src/settings_api/domain: the catalogue's vocabulary and the rules over it.
pub mod Platform
pub mod Value
pub mod Json
pub mod Types
pub mod Errors
pub mod Catalogue
pub mod Registry
pub mod Namespaces
pub mod Secrets
pub mod Values
pub mod Policy
pub mod Resolution

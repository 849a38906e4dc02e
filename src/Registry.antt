-- ===== src/Registry.antt =====
-- Package internal/registry: image references and their resolution to digests.
pub mod ImageRef
pub mod Resolver
pub mod Canonical
pub mod RoundTrip
mod Tests

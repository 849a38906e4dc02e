-- ===== src/Komodor.antt =====
-- Package internal/komodor: events made of scan results, and the client of the Komodor API.
pub mod Publisher
pub mod Client
mod Tests

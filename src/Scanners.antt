-- ===== src/Scanners.antt =====
-- Package internal/scanners: severities, scan results and the registry of scanners.
pub mod Severity
pub mod Result
pub mod Factory
pub mod Summary
pub mod Dedupe
pub mod Payload
pub mod Collected
pub mod Wiz
pub mod Clair
pub mod Snyk
pub mod Trivy
pub mod TrivyOperator
pub mod Reported
pub mod Settings
mod Tests

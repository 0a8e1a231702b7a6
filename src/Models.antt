-- ===== src/Models.antt =====
-- The methods of the rows (internal/models/models.go) that are not with the service that uses them.
pub mod Arrays
pub mod Scanned
pub mod Periods
mod Tests

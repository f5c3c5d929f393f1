-- ===== src/Sql.antt =====
-- The SQL database that the repositories of internal/repository reach through GORM.
pub mod Table
pub mod Memory
pub mod Effects
pub mod Results

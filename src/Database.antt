-- ===== src/Database.antt =====
-- database/: the row structs and their ids.
pub mod Models
pub mod Open
pub mod Free

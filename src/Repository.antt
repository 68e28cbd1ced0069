-- ===== src/Repository.antt =====
-- database/*_repository.c: one module for each table.
pub mod Reference
pub mod Roles
pub mod Statuses
pub mod Types
pub mod Directions
pub mod Connections
pub mod Messages
pub mod NamedConnections

-- ===== src/Tests.antt =====
-- Runs of the model, and the theorems at concrete data.
pub mod Samples
pub mod TwoTables
mod Server
mod Rows
mod History
mod Requests
mod Uploads
mod Freeing
pub mod Masks
mod Adapters
mod Documents
pub mod Lifecycle
mod Concurrency
mod Times
mod Recorded

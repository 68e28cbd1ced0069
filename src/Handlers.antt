-- ===== src/Handlers.antt =====
-- handlers/: the requests that the server answers.
pub mod Json
pub mod ContentLength
pub mod Saving
pub mod Send
pub mod Upload
pub mod OpenApi
pub mod Locks
pub mod History

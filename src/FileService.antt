-- ===== src/FileService.antt =====
-- FileService/FileService.c
pub mod Sanitize
pub mod Copy
pub mod Collapse
pub mod Safety
pub mod Exact
pub mod Files

-- ===== src/Web.antt =====
-- The logic of the web application: apps/web/src/lib and the import dialog of the cameras.
pub mod Import
pub mod Bulk
pub mod Labels
pub mod Texts
mod Examples

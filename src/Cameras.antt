-- ===== src/Cameras.antt =====
-- The camera rows: apps/api/src/cameras.
pub mod Ffprobe
pub mod Tags
pub mod Service
pub mod Changes
pub mod Limits
pub mod Keys
mod Examples

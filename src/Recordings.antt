-- ===== src/Recordings.antt =====
-- Recording: apps/api/src/recordings.
pub mod H264
pub mod Service
pub mod Schedule
pub mod Hls
pub mod Manifest
pub mod Download
pub mod Retention
mod Examples

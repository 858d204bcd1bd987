-- ===== src/Streams.antt =====
-- The streaming back end: apps/api/src/streams.
pub mod Health
pub mod Jobs
pub mod Ffmpeg
pub mod Processor
pub mod Service
pub mod Profiles
pub mod Probe
pub mod Command

-- ===== src/Usm.antt =====
-- src/usm.rs, the USM demuxer.
pub mod Demux
pub mod Video
pub mod Mask
pub mod Table

-- ===== src/Fs.antt =====
-- servers/fs: the file system server's block cache and HinaFS.
pub mod State
pub mod Cache
pub mod Flush
pub mod Sectors
pub mod Coherent
pub mod Ops
pub mod Bitmap
pub mod Paths
pub mod Dirs
pub mod Tests

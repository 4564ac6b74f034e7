-- ===== src/Fat32.antt =====
-- The FAT32 driver, fat32.c and header/filesystem/fat32.h.
pub mod Types
pub mod Layout
pub mod Driver
pub mod Find
pub mod Write
pub mod Delete
pub mod Copy
pub mod Clusters
pub mod Codec
pub mod Chain
pub mod Store
pub mod ReadChain
pub mod Scan
pub mod Decode
pub mod Placement
pub mod Mount
pub mod WriteRead
pub mod Finite
pub mod FreeChain
pub mod DeleteFile
pub mod Unchanged
pub mod WriteCode
pub mod Format
pub mod Search
pub mod Tests

-- ===== src/FileHelper.antt =====
-- utils/file_helper.h.
pub mod Paths
pub mod Copy
pub mod Dirs
pub mod Disk
pub mod Folder
pub mod Tree
pub mod Copied
pub mod Laws
pub mod Created

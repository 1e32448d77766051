-- ===== src/Files.antt =====
-- The file manager: apps/web/src/components/files.
pub mod Permissions
pub mod Paths
pub mod Upload
pub mod Selection
pub mod Listing
pub mod Explorer
pub mod Editor
pub mod Rows
pub mod Menu
pub mod Preview
pub mod Archive
pub mod Tree

-- ===== src/Packaging.antt =====
-- crates/packaging: names on disk, archives and their metadata, the library's store.
pub mod Paths
pub mod ComicInfo
pub mod Cbz
pub mod Store

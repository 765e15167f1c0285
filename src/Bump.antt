-- ===== src/Bump.antt =====
-- The three bump allocators: of the page backend (unialloc/src/freelist/bump.rs), of the metadata
-- (unialloc/src/sc/mod.rs) and of the slab headers (unialloc/src/page/mod.rs). Each cuts a mapping
-- of the operating system from its upper end down. The code without the fixed_heap feature.
pub mod Backend
pub mod Meta
pub mod Pages
pub mod Ranges
pub mod Fresh
pub mod Headers
mod Examples

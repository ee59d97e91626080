-- ===== src/Radix.antt =====
-- miniengine/radix_cache.py: the page-aligned radix tree of cached KV pages.
pub mod Node
pub mod Keys
pub mod Cache
pub mod Match
pub mod Insert
pub mod Lock
pub mod Evict
pub mod WellFormed
pub mod Look
pub mod Contract
pub mod Allocate
mod Tests

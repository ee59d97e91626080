-- ===== src/Engine.antt =====
-- miniengine/engine.py in paged mode: requests whose KV stands in pages of the pool. The transformer
-- and the sampler are parameters, and so are the clock and CPython's `id`.
pub mod State
pub mod Admission
pub mod Store
pub mod Masks
pub mod Init
pub mod Prefill
pub mod Packed
pub mod Batch
pub mod Decode
pub mod DecodeBatch
pub mod Release
pub mod Same
mod Tests

-- ===== src/HashTable.antt =====
-- internal/data_structure/hash_table: the dictionary with expiry times, and its eviction.
pub mod Config
pub mod Dict
pub mod EvictionLru
pub mod Evict
pub mod Invariant
pub mod Bounds
pub mod Expiry
pub mod Loss

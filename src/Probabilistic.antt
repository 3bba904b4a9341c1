-- ===== src/Probabilistic.antt =====
-- internal/data_structure/probabilistic.
pub mod Cms
pub mod Bloom

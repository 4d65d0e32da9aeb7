-- ===== src/Core.antt =====
-- include/itch/core: scalar types, checked results and machine words.
pub mod Check
pub mod Types
pub mod Word
pub mod Hash
pub mod Endian

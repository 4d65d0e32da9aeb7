-- ===== src/Wire.antt =====
-- include/itch/wire: the layouts of the messages, the views over them, and the framing.
pub mod Fields
pub mod Layout
pub mod Messages
pub mod Views
pub mod Framing
pub mod Source
pub mod Tests

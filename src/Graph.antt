-- ===== src/Graph.antt =====
-- The graph mirror: attribute maps, their validation, and the Cypher text that carries them.
pub mod Json
pub mod Attrs
pub mod Encode
pub mod Age
mod Tests

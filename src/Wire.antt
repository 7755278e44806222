-- ===== src/Wire.antt =====
-- The binary protocol of internal/yproto/yproto.go, and the state vectors of
-- internal/ycrdt/state_vector.go that travel in it.
pub mod Reader
pub mod VarUint
pub mod Messages
pub mod StateVector
pub mod Awareness
mod Tests

-- ===== src/Wire.antt =====
-- The link to the Frama-C server (src/frama-c): frames and messages, the stream under them, and the
-- requests made over it.
pub mod Codec
pub mod Error
pub mod Transport
pub mod Message
pub mod Client

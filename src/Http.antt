-- ===== src/Http.antt =====
-- examples/http: messages (HttpCodec.cpp and http_defs.h), and the codec and server built on them.
pub mod Tables
pub mod Mime
pub mod Split
pub mod Message
pub mod Codec
pub mod Server
mod Tests

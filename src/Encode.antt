-- ===== src/Encode.antt =====
-- starkware/cairo/lang/compiler/encode.py: an instruction as one or two numbers, and back.
pub mod Flags
pub mod Encoder
pub mod Decoder
pub mod Layout
pub mod Fields
pub mod RoundTrip
pub mod Canonical

-- ===== src/Wire.antt =====
-- frame.go: the wire-v2 layouts and their decoders and encoders.
pub mod Decoder
pub mod Tx
pub mod Tlv
pub mod Frame
pub mod Datagram

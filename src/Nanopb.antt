-- ===== src/Nanopb.antt =====
-- The wrappers around the messages of nanopb, src/common/nanopb_decoder.cc and
-- src/common/nanopb_encoder.cc: what they store, with nanopb itself a parameter.
pub mod Decoder
pub mod Encoder

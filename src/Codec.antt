-- ===== src/Codec.antt =====
-- typeway-protobuf/src/codec.rs: the protobuf wire helpers that the derived codecs call.
-- A byte slice is a list of numbers below 256. `Buffer` is the output vector with its capacity, so
-- that the unsafe writes are bounds-checked by the model; `Encode` and `Decode` hold the functions of the
-- source; `Varint` says independently what the encoding of a number is; the rest are proofs.
pub mod Buffer
pub mod Encode
pub mod Decode
pub mod Zigzag
pub mod Varint
mod Tests

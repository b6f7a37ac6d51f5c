-- ===== src/Binary.antt =====
-- typeway-grpc/src/proto_codec.rs: the binary codec of messages that are described at run time.
pub mod Base64
pub mod Wire
pub mod Fields
pub mod Json
pub mod Encode
pub mod Decode
pub mod Defaults
pub mod Scalars
pub mod RoundTrip
pub mod Tests

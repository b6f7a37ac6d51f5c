-- ===== src/Grpc.antt =====
-- The gRPC layer of typeway-grpc/src: framing, status codes, messages and timeouts, compression, and
-- `.proto` files.
pub mod Framing
pub mod Status
pub mod Message
pub mod Timeout
pub mod Compression
pub mod Proto
pub mod Parse
pub mod Mapping
pub mod Diff
mod Tests

-- ===== src/Dispatch.antt =====
-- The native gRPC server of typeway-server/src/grpc_dispatch.rs, with the bodies it answers with
-- (typeway-grpc/src/trailer_body.rs, typeway-server/src/grpc_stream.rs) and the layer for browsers
-- (typeway-grpc/src/web.rs).
pub mod Body
pub mod Call
pub mod Health
pub mod Reflection
pub mod Router
pub mod Stream
pub mod Synthetic
pub mod Web
pub mod Wrap
mod Tests

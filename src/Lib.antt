-- ===== src/Lib.antt =====
-- Verification of typeway, a Rust web framework that serves HTTP and gRPC from one description of an API.
--
-- The development models the parts that decide something by themselves, and leaves out the plumbing over
-- hyper, tokio and tonic. The parts, and how they interact:
--
--   - The protobuf codec (typeway-protobuf/src/codec.rs) turns numbers into bytes and back; the generated
--     code for messages calls it for each field.
--   - The binary codec of typeway-grpc/src/proto_codec.rs writes JSON objects as protobuf messages, and reads
--     them back, by a description of the fields. The transcoder (typeway-grpc/src/transcode.rs) finds the
--     description for a method in that of its service, so a gRPC client talks to a handler that has JSON.
--   - The gRPC layer (typeway-grpc/src) puts a message behind a header of five bytes, perhaps compressed,
--     and carries statuses, messages and deadlines in headers and trailers. It writes message
--     definitions, parses `.proto` files, and compares two versions of a contract.
--   - The router (typeway-server/src/router.rs) finds the handler for a method and a path, within a prefix
--     and a body limit.
--   - The gRPC server (typeway-server/src/grpc_dispatch.rs) looks a method up in a table that it built from the
--     router's, makes an HTTP request of the message for the REST handler, runs the middleware and the
--     handler under the deadline, and wraps the response into frames and trailers
--     (typeway-grpc/src/trailer_body.rs, typeway-server/src/grpc_stream.rs). The layer of
--     typeway-grpc/src/web.rs in front of it serves browsers, with the trailers in the body.
--   - The client (typeway-client/src) makes further attempts after errors that its policy retries.
--   - Content negotiation (typeway-server/src/negotiate.rs) picks the format of a response by the `Accept`
--     header.
--   - Session types (typeway-core/src/session.rs) describe the order of the messages on a WebSocket, and
--     typed channels (typeway-server/src/typed_ws.rs) enforce it.
--
-- Files and sources:
--
--   Base            helpers: Boolean tests, lists over the native numbers, bits, well-foundedness of <.
--   Client          error.rs, retry.rs: the policy; client.rs: call_with_retry, _full and _query, over the
--                   results of the attempts by their numbers.
--   Codec/Buffer    `Vec<u8>` with its capacity; a raw write past the capacity is `none`.
--   Codec/Encode    tw_encode_varint, _array, _unchecked, tw_encode_packed_u32, tw_varint_len,
--                   tw_encode_tag, tw_tag_len.
--   Codec/Decode    TypewayDecodeError (`Error`), tw_decode_varint, tw_decode_packed_varints,
--                   tw_skip_wire_value.
--   Codec/Zigzag    tw_zigzag_encode and tw_zigzag_decode; an i64 is its 64 bits.
--   Codec/Varint    the encoding as the protobuf format defines it, as a relation.
--   Binary/Base64   proto_codec.rs: the base64 helpers, encode and decode.
--   Binary/Fields   proto_codec.rs: ProtoFieldDef, wire_type_for, is_scalar_type, is_packable_type.
--   Binary/Json     serde_json, as an interface.
--   Binary/Wire     proto_codec.rs: CodecError, encode_varint, decode_varint, the zigzag coding,
--                   decode_wire_value. A panic is a result, `panics`.
--   Binary/Encode   proto_codec.rs: json_to_proto_binary, encode_field (`encode_value`) and what they call.
--   Binary/Decode   proto_codec.rs: proto_binary_to_json, wire_value_to_json, unpack_scalars.
--   Binary/Scalars  which JSON values stand for a value of a scalar type; Binary/Defaults which of these are
--                   the default of their type.
--   Transcode       spec.rs: the data types; transcode.rs: find_method, message_fields, decode_request,
--                   encode_response, encode_message, field_specs_to_defs, the content types.
--   Grpc/Framing    framing.rs: encode_grpc_frame, decode_grpc_frame, decode_grpc_frames.
--   Grpc/Status     status.rs: GrpcCode, its numbers and names, http_to_grpc_code.
--   Grpc/Message    status.rs: encode_grpc_message, decode_grpc_message.
--   Grpc/Timeout    status.rs: parse_grpc_timeout; a panic is the outcome `panics`.
--   Grpc/Compression  compression.rs: the choice of an algorithm, and frames with a compressed message.
--   Grpc/Proto      proto_parse.rs: the types of a parsed file.
--   Grpc/Parse      proto_parse.rs: parse_proto and the parsers that it calls; lines are lists of characters.
--   Grpc/Parse/Field  proto_parse.rs: parse_field and parse_map_field.
--   Grpc/Mapping    mapping.rs: to_proto_line (`field_line` without the doc comment), build_message.
--   Grpc/Diff       diff.rs: diff_services, diff_messages, and diff_protos on parsed files (`diff_files`).
--   Dispatch/Body   trailer_body.rs: status_to_trailers and GrpcBody.
--   Dispatch/Stream trailer_body.rs: GrpcStreamBody (`poll_stream`); grpc_stream.rs: GrpcStream, its `unfold`
--                   as `step`, and build_trailers.
--   Dispatch/Health health.rs, and is_reflection_path.
--   Dispatch/Reflection  reflection.rs: handle_request.
--   Dispatch/Synthetic  grpc_dispatch.rs: extract_capture_values, build_synthetic_request.
--   Dispatch/Wrap   grpc_dispatch.rs: wrap_response_as_grpc, encode_response_bytes, grpc_error_response,
--                   grpc_json_response; grpc_direct.rs: dispatch_direct.
--   Dispatch/Router grpc_dispatch.rs: GrpcRouter.
--   Dispatch/Call   grpc_dispatch.rs: GrpcMultiplexer::call, by its branches; is_grpc_request; JsonCodec.
--   Dispatch/Web    web.rs: encode_trailers_frame, GrpcWebService::call (`web_call`).
--   Negotiate       negotiate.rs: parse_accept, media_type_matches, best_match. `sort_by` is an insertion
--                   sort, which a stable sort agrees with for an order.
--   Negotiate/Response  negotiate.rs: the formats, negotiate_and_render, NegotiatedResponse.
--   Router/Matchit  the trie of the matchit crate, as an interface.
--   Router/Method   the index of buckets by method, and method_bit.
--   Router/Pattern  LazySegments (`segments`) and to_matchit_pattern.
--   Router/Prefix   strip_prefix and set_prefix.
--   Router/Table    RouterInner, add_route, lookup_in_bucket, resolve.
--   Router/Request  route, route_with_bytes, collect_body_limited.
--   Session         session.rs: the protocol types and Dual.
--   Session/Channel typed_ws.rs: TypedWebSocket, one function per operation.
--
-- The modules below these hold the proofs, and the modules called Tests run the code on concrete inputs.
--
-- Conventions. A byte or a code point is a native number, and a slice or a text is the list of them, except
-- that diff.rs, the names in proto_codec.rs and transcode.rs, the names of the codes and the WebSocket texts
-- use native strings, and proto_parse.rs, mapping.rs and negotiate.rs lists of characters. A u64 is a number
-- below 2 ^ 64, and wrap-around is written out. What a function mutates is its argument and its result. Loops
-- over a number recur on the accessibility of <. Loops over bytes that consume a varying number of them
-- (tw_decode_packed_varints, decode_grpc_frames, to_matchit_pattern) take fuel: as many rounds as there are
-- bytes, or one more, which is enough because each round consumes at least one byte. The same holds of the
-- loops of Binary/Decode, over bytes, and of Grpc/Parse, over lines, whose results have `out_of_fuel` beside
-- the errors; the nested messages of Binary/Decode recur on the definitions. field_specs_to_defs recurs on
-- fuel, the depth of its calls, and has no result where that is too small: how deep it goes depends on the
-- description (Transcode/Depth).
--
-- Third-party code is an interface whose laws are its documented behaviour: matchit (Router/Matchit), flate2
-- (`Flate` in Grpc/Compression), serde_json and the WebSocket crate (`Serde` and `Transport` in
-- Session/Channel, and again `Json` in Binary/Json, with floats as their bits), `Uri` of the http crate
-- (`Http` in Dispatch/Synthetic). Which bytes are a header value is a parameter too, and a header map is the
-- headers that the code reads or sets. ProtoTranscoder is a parameter of Dispatch (`Transcoder`), whose
-- reading can panic; its calls end, as they do where no message holds itself (Transcode/Depth). An insertion
-- sort stands for `sort_by` in Negotiate, where no quality is NaN. An f32 is the interface `Floats` in
-- Negotiate. A handler is a function to a `Future`: its response, and whether it is ready within a time. The
-- tests fill each of these.
--
-- Not modelled: locks and futures of the router and its Tower service; the constructors of GrpcStatus;
-- parse_proto_with_imports, which reads files, and what is generated from `.proto` files; extractors, the
-- HTTP middleware and the server; one attempt of the client, and its backoff, which is computed in floats;
-- macros, OpenAPI and the migration tool. A path prefix is kept as its joined text only, not also as
-- segments.
pub mod Base
pub mod Binary
pub mod Client
pub mod Codec
pub mod Dispatch
pub mod Grpc
pub mod Negotiate
pub mod Router
pub mod Session
pub mod Transcode

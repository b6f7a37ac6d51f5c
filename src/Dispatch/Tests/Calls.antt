-- ===== src/Dispatch/Tests/Calls.antt =====
-- Tests of the calls of the gRPC server, and its theorems at concrete requests.
use typeway.Base.{
  ℕ, ◌≡◌, refl, Bool, true, false, inl, inr, List, [], ◌∷◌, Option, none, some, ltb, arith,
}
use typeway.Binary.Json.{Json}
use typeway.Binary.Tests.Values as Values
use typeway.Binary.Tests.Values.{Value, sample, null, array, end, str, boolean}
use typeway.Router.Table.{RouteEntry}
use typeway.Router.Method.{Method}
use typeway.Grpc.Status.{not_found, internal, http_to_grpc_code}
use typeway.Grpc.Framing.{decode_grpc_frames}
use typeway.Dispatch.Body.{ascii, GrpcStatus}
use typeway.Dispatch.Stream.{Sent, item, failure, stream_frames}
use typeway.Dispatch.Stream.Ends.{answers}
use typeway.Dispatch.Synthetic.{Http, Headers, Parts, GrpcMethodDescriptor}
use typeway.Dispatch.Health.{new_health}
use typeway.Dispatch.Wrap.{
  full, streamed, Response, Transcoder, panicked, collect, wrap_response_as_grpc,
  grpc_error_response,
}
use typeway.Dispatch.Wrap.Payload.{decode_grpc_frames-wrap_response_as_grpc}
use typeway.Dispatch.Router.{
  Handler, GrpcMiddleware, standard, lookup_path, from_router, add_middleware,
}
use typeway.Dispatch.Call.{Server, call_grpc}
use typeway.Dispatch.Router.Table.{Serves, entry_with, add_all, lookup-add_middleware}
use typeway.Dispatch.Call.Answers.{Explains, call_grpc-Explains}
use typeway.Dispatch.Web.{is_grpc_web_request, trailers_text, Service, web_call}
use typeway.Dispatch.Web.Reads.{web_call-stream}

abbrev byte_http : Http
byte_http = record { Uri = List ℕ; Extensions = ℕ; parse_uri = λ s. some s; default_uri = [] }

abbrev takes_any : List ℕ → Bool
takes_any bytes = true

abbrev get_user : GrpcMethodDescriptor
get_user = record {
  name = "GetUser";
  full_path = ascii "/users.v1.Users/GetUser";
  http_method = Method.get;
  rest_path = ascii "/users";
  server_streaming = false;
  client_streaming = false;
}

abbrev plain_response : ℕ → List ℕ → Response
plain_response status bytes = record {
  status = status;
  content_type = none;
  grpc_status = none;
  grpc_message = none;
  marker = false;
  body = full (some bytes);
}

-- A handler that takes ten nanoseconds, and finds nothing.
abbrev absent_user : Handler byte_http
absent_user parts body = record {
  response = plain_response 404 (ascii "no");
  within = λ t. ltb 9 t;
}

abbrev pass_through : GrpcMiddleware byte_http
pass_through parts body = inl (parts, body)

abbrev reject_all : GrpcMiddleware byte_http
reject_all parts body = inr (plain_response 403 [])

abbrev user_routes : List (RouteEntry (Handler byte_http))
user_routes =
    record {
      method = Method.get;
      pattern = ascii "/users";
      match_fn = λ segs. true;
      handler = absent_user;
    }
    ∷ []

abbrev web_headers : Headers
web_headers = record {
  content_type = some (some "application/grpc-web+json");
  grpc_timeout = some (some (ascii "5n"));
  others = [];
}

abbrev user_request : Parts byte_http
user_request = record {
  method = Method.post;
  uri = ascii "/users.v1.Users/GetUser";
  headers = web_headers;
  extensions = 0;
}

abbrev user_server : Server byte_http sample
user_server = record {
  null = null;
  display = λ v. [];
  json_error = λ bytes. ascii "bad";
  header_value = takes_any;
  path_of = λ uri. uri;
  reflection = record { proto_content = ascii "x"; service_names = [] };
  rest = λ parts body. plain_response 404 [];
  grpc_router = from_router byte_http user_routes none (get_user ∷ []);
  health = new_health;
  reflection_enabled = true;
  grpc_spec_json = none;
  grpc_docs_html = none;
  transcoder = none;
}

-- Every text is read as an array of two values, and a value is written as a byte of binary.
abbrev two_values : Json
two_values = record sample {
  from_slice = λ bytes. some (array (Values.item (str []) (Values.item (boolean true) end)));
}

abbrev nine : Transcoder Value
nine = record {
  decode_request = λ path bytes. panicked;
  encode_response = λ path v. elim v [ array vs ↦ some (9 ∷ []) | _ ↦ none ];
}

abbrev list_users : GrpcMethodDescriptor
list_users = record get_user { server_streaming = true }

decode_grpc_frames-wrap_response_as_grpc_example :
    decode_grpc_frames (
      collect
        (wrap_response_as_grpc two_values null
          (some nine)
          (ascii "/a")
          true
          takes_any
          list_users
          (plain_response 200 (ascii "hi"))).body)
    ≡ some (record { frames = (9 ∷ []) ∷ (9 ∷ []) ∷ []; trailers = none })
unfolding collect http_to_grpc_code
decode_grpc_frames-wrap_response_as_grpc_example =
    decode_grpc_frames-wrap_response_as_grpc two_values null (some nine) (ascii "/a") true takes_any
      list_users (plain_response 200 (ascii "hi")) refl (omega arith, (omega arith, tt))

call_grpc-Explains_example :
    Explains byte_http sample user_server user_request
      (some [])
      (call_grpc byte_http sample user_server user_request (some []))
call_grpc-Explains_example = call_grpc-Explains byte_http sample user_server user_request (some [])

lookup-add_middleware_example :
    (o : Option (GrpcMethodDescriptor × Handler byte_http)) × Serves byte_http user_routes
      (ascii "/users.v1.Users/GetUser")
      (get_user ∷ [])
      o
    × (lookup_path byte_http
          (ascii "/users.v1.Users/GetUser")
          (add_all byte_http
            (ascii "/users.v1.Users/GetUser")
            (pass_through ∷ reject_all ∷ [])
            (from_router byte_http user_routes none (get_user ∷ []))).handlers
        ≡ entry_with byte_http (pass_through ∷ reject_all ∷ []) o)
lookup-add_middleware_example =
    lookup-add_middleware byte_http user_routes none (get_user ∷ [])
      (ascii "/users.v1.Users/GetUser") (ascii "/users.v1.Users/GetUser")
      (pass_through ∷ reject_all ∷ [])

-- The entry that it finds.
users_entry :
    lookup_path byte_http
      (ascii "/users.v1.Users/GetUser")
      (add_all byte_http
        (ascii "/users.v1.Users/GetUser")
        (pass_through ∷ reject_all ∷ [])
        (from_router byte_http user_routes none (get_user ∷ []))).handlers
    ≡ some (standard absent_user get_user (pass_through ∷ reject_all ∷ []))
unfolding from_router add_middleware lookup_path
users_entry = refl

-- The layer for browsers, over a service that has nothing at the path.
abbrev no_method : GrpcStatus
no_method = record { status_code = not_found; message = ascii "no method" }

abbrev refusing : Service byte_http
refusing parts body = grpc_error_response takes_any no_method

abbrev failing : List (Sent ℕ)
failing = item 5 ∷ failure (record { status_code = internal; message = [] }) ∷ []

abbrev number_json : ℕ → Option (List ℕ)
number_json n = some (n ∷ [])

abbrev streaming : Service byte_http
streaming parts body = record {
  status = 200;
  content_type = some "application/grpc+json";
  grpc_status = none;
  grpc_message = none;
  marker = true;
  body = streamed (stream_frames takes_any number_json false (answers number_json failing 0));
}

web_call-stream_example :
    decode_grpc_frames (collect (web_call byte_http streaming user_request none).body)
    ≡ some (record { frames = (5 ∷ []) ∷ []; trailers = some (trailers_text (ascii "0") none) })
unfolding is_grpc_web_request
web_call-stream_example =
    web_call-stream number_json byte_http streaming user_request none refl takes_any failing 0 refl
      refl refl (omega arith, tt)

-- ===== src/Dispatch/Tests.antt =====
-- Tests of the gRPC server's bodies and synthetic requests, and their theorems at concrete inputs.
mod Calls
use Prim.Native.String.{String}
use typeway.Base.{
  false, ◌++◌, none, ℕ, zero, suc, ◌+◌, ◌<◌, ◌≡◌, refl, Bool, true, false, ◌&&◌, ◌⊎◌, inl, inr,
  List, [], ◌∷◌, ◌++◌, map, Option, none, some, length, All, if◌then◌else◌, arith,
}
use typeway.Binary.Json.{Json}
use typeway.Binary.Tests.Values.{sample, Value, str, object, member, empty}
use typeway.Router.Method.{Method}
use typeway.Router.Pattern.{segments, show, bytes_eq}
use typeway.Router.Pattern.Renders.{Segment, render}
use typeway.Grpc.Status.{GrpcCode, ok, not_found, internal, as_i32, http_to_grpc_code}
use typeway.Grpc.Framing.{decode_grpc_frames}
use typeway.Grpc.Framing.RoundTrip.{IsU32, encode_all}
use typeway.Grpc.Message.Utf8.{is_utf8}
use typeway.Dispatch.Body.{
  ascii, GrpcStatus, Trailers, Frame, data_frame, trailers_frame, GrpcBody, body_with_status,
  status_to_trailers, ok_status,
}
use typeway.Dispatch.Body.Yields.{remaining, IsQueue, poll_frame-IsQueue}
use typeway.Dispatch.Body.Status.{read_code, read_message, status_to_trailers-read}
use typeway.Dispatch.Stream.{
  Poll, pending, ready, stream_with_status, Sent, item, failure, stream_frames, build_trailers,
}
use typeway.Dispatch.Stream.Ends.{
  polled, Delivers, closed, waits, sends, polled-Delivers, sent_items, final_status, framed,
  answers, Shows, stream_frames_lem,
}
use typeway.Dispatch.Reflection.{quoted, escape, handle_reflection}
use typeway.Dispatch.Reflection.Escapes.{read_string, read_string-escape}
use typeway.Dispatch.Synthetic.{
  Http, Headers, Parts, GrpcMethodDescriptor, placeholder_count, substitute, extract_capture_values,
  synthetic_uri,
}
use typeway.Dispatch.Synthetic.Captures.{length-extract_capture_values}
use typeway.Dispatch.Synthetic.Paths.{Fills}

abbrev plain_http : Http
plain_http = record { Uri = List ℕ; Extensions = ℕ; parse_uri = λ s. some s; default_uri = [] }

abbrev any_value : List ℕ → Bool
any_value bytes = true

abbrev missing : GrpcStatus
missing = record { status_code = not_found; message = ascii "no user 7%" }

abbrev greeting : GrpcBody
greeting = body_with_status any_value (ascii "hi") missing

poll_frame-IsQueue_example : IsQueue (remaining greeting) greeting
poll_frame-IsQueue_example = poll_frame-IsQueue greeting

status_to_trailers-read_example :
    (read_code (status_to_trailers any_value missing) ≡ some not_found)
    × (read_message (status_to_trailers any_value missing) ≡ ascii "no user 7%")
unfolding is_utf8
status_to_trailers-read_example =
    status_to_trailers-read any_value missing (λ bytes h. refl) (omega arith, refl)

polled-Delivers_example :
    polled any_value
      (stream_with_status missing)
      (pending ∷ ready (some (1 ∷ [])) ∷ pending ∷ ready none ∷ ready (some (2 ∷ [])) ∷ [])
    ≡ data_frame (1 ∷ []) ∷ trailers_frame (status_to_trailers any_value missing) ∷ []
polled-Delivers_example =
    polled-Delivers any_value missing
      (waits (sends (1 ∷ []) (waits (closed (ready (some (2 ∷ [])) ∷ [])))))

abbrev sent_two : List (Sent ℕ)
sent_two = item 5 ∷ failure missing ∷ item 6 ∷ []

abbrev number_bytes : ℕ → Option (List ℕ)
number_bytes n = some (n ∷ [])

stream_frames_lem_example :
    (t : Trailers) × (stream_frames any_value number_bytes false (answers number_bytes sent_two 2)
      ≡ map (framed number_bytes) (5 ∷ []) ++ trailers_frame t ∷ [])
    × (read_code t ≡ some not_found)
    × Shows any_value (ascii "no user 7%") t.grpc_message
stream_frames_lem_example = stream_frames_lem number_bytes any_value sent_two 2

abbrev user_template : List ℕ
user_template = ascii "/users/{}/posts/{}"

-- A message with both captures, and one with a single field.
abbrev named_message : Value
named_message = object (member "param1" (str (ascii "7")) (member "param2" (str (ascii "x")) empty))

abbrev short_message : Value
short_message = object (member "id" (str (ascii "7")) empty)

abbrev shown : Value → List ℕ
shown v = []

named_uri : synthetic_uri sample shown user_template named_message ≡ ascii "/users/7/posts/x"
unfolding synthetic_uri
named_uri = refl

-- The second placeholder is filled with nothing.
short_uri : synthetic_uri sample shown user_template short_message ≡ ascii "/users/7/posts/"
unfolding synthetic_uri
short_uri = refl

-- A value with a `/` changes the path.
slash_uri :
    segments (
      synthetic_uri sample shown
        (ascii "/users/{}")
        (object (member "id" (str (ascii "7/admin")) empty)))
    ≡ ascii "users" ∷ ascii "7" ∷ ascii "admin" ∷ []
unfolding synthetic_uri segments
slash_uri = refl

length-extract_capture_values_example :
    length (extract_capture_values sample shown short_message user_template)
    ≡ placeholder_count user_template
length-extract_capture_values_example =
    length-extract_capture_values sample shown short_message user_template

-- A method whose REST path has a capture, and a request for it.
abbrev user_method : GrpcMethodDescriptor
user_method = record {
  name = "GetUser";
  full_path = ascii "/users.v1.Users/GetUser";
  http_method = Method.get;
  rest_path = ascii "/users/{}";
  server_streaming = false;
  client_streaming = false;
}

abbrev grpc_request : Parts plain_http
grpc_request = record {
  method = Method.post;
  uri = ascii "/users.v1.Users/GetUser";
  headers = record { content_type = none; grpc_timeout = none; others = [] };
  extensions = 0;
}

-- What the reflection service writes; 34 is the quotation mark and 92 the backslash.
listed_services :
    handle_reflection
      (record { proto_content = []; service_names = ascii "a.B" ∷ [] })
      (ascii "{list_services}")
    ≡ ascii "{"
      ++ quoted (ascii "listServicesResponse")
      ++ ascii ":{"
      ++ quoted (ascii "service")
      ++ ascii ":[{"
      ++ quoted (ascii "name")
      ++ ascii ":"
      ++ quoted (ascii "a.B")
      ++ ascii "}]}}"
unfolding handle_reflection
listed_services = refl

read_string-escape_example :
    read_string false (escape (b'a' ∷ 34 ∷ 92 ∷ 10 ∷ []) ++ 34 ∷ b'}' ∷ [])
    ≡ some (b'a' ∷ 34 ∷ 92 ∷ 10 ∷ [], b'}' ∷ [])
read_string-escape_example = read_string-escape (b'a' ∷ 34 ∷ 92 ∷ 10 ∷ []) (b'}' ∷ [])

-- A tab is not escaped.
tab_not_read : read_string false (escape (9 ∷ []) ++ 34 ∷ []) ≡ none
unfolding read_string escape
tab_not_read = refl

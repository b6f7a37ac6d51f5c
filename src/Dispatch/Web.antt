-- ===== src/Dispatch/Web.antt =====
-- typeway-grpc/src/web.rs: the layer that turns gRPC-Web requests into gRPC requests, and writes the
-- trailers into the body of the response.
pub mod Lines
pub mod Reads
use Prim.Native.String.{String}
use typeway.Base.{
  ℕ, ◌%◌, ◌^◌, Bool, true, false, ◌||◌, List, [], ◌∷◌, ◌++◌, Option, none, some, length,
  if◌then◌else◌,
}
use typeway.Grpc.Framing.{to_be_bytes}
use typeway.Dispatch.Body.{ascii}
use typeway.Dispatch.Health.{contains_text, prefix_of}
use typeway.Dispatch.Synthetic.{Http, Headers, Parts}
use typeway.Dispatch.Wrap.{Body, full, Response, collect}

-- `get(CONTENT_TYPE).and_then(|v| v.to_str().ok())`
abbrev pub content_text : Headers → Option String
content_text headers = elim (headers.content_type) [ some o ↦ o | none ↦ none ]

unfoldable pub is_grpc_web_request : Headers → Bool
is_grpc_web_request headers = elim (content_text headers) [
  | some ct ↦ prefix_of (ascii "application/grpc-web") (ascii ct)
  | none ↦ false
]

unfoldable pub is_json_request : Headers → Bool
is_json_request headers = elim (content_text headers) [
  | some ct ↦ contains_text (ascii "grpc-web+json") (ascii ct)
  | none ↦ false
]

-- A line of the trailers ends in CR LF.
abbrev pub trailer_line : List ℕ → List ℕ → List ℕ
trailer_line name value = name ++ (value ++ 13 ∷ 10 ∷ [])

unfoldable pub trailers_text : List ℕ → Option (List ℕ) → List ℕ
trailers_text grpc_status grpc_message =
    trailer_line (ascii "grpc-status: ") grpc_status
    ++ (elim grpc_message [ some msg ↦ trailer_line (ascii "grpc-message: ") msg | none ↦ [] ])

unfoldable pub encode_trailers_frame : List ℕ → Option (List ℕ) → List ℕ
unfolding trailers_text
encode_trailers_frame grpc_status grpc_message =
    let trailer_bytes = trailers_text grpc_status grpc_message in
    0x80 ∷ (to_be_bytes (length trailer_bytes % 2 ^ 32) ++ trailer_bytes)

abbrev pub status_or_zero : Option (List ℕ) → List ℕ
status_or_zero none = ascii "0"
status_or_zero (some grpc_status) = grpc_status

-- The response for the browser. The headers that hold the status are taken out.
unfoldable pub to_web : Bool → Response → Response
unfolding encode_trailers_frame collect
to_web is_json res = record res {
  content_type = some (if is_json then "application/grpc-web+json" else "application/grpc-web");
  grpc_status = none;
  grpc_message = none;
  body = full (
      some (
        collect res.body
        ++ encode_trailers_frame (status_or_zero res.grpc_status) res.grpc_message));
}

module _ (W : Http) where
  abbrev pub Service : Type 0
  Service = Parts W → Option (List ℕ) → Response

  unfoldable pub to_grpc : Bool → Parts W → Parts W
  to_grpc is_json parts = record parts {
    headers = record parts.headers {
      content_type = some (some (if is_json then "application/grpc+json" else "application/grpc"));
    };
  }

  unfoldable pub web_call : Service → Service
  unfolding is_grpc_web_request is_json_request to_grpc to_web
  web_call inner parts body =
      let is_json = is_json_request parts.headers in
      if is_grpc_web_request parts.headers
      then to_web is_json (inner (to_grpc is_json parts) body)
      else inner parts body

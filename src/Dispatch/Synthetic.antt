-- ===== src/Dispatch/Synthetic.antt =====
-- The request that grpc_dispatch.rs makes of a gRPC message, for the extractors of a REST handler. A
-- path is the list of its bytes; the crates `http` and `serde_json` are interfaces.
pub mod Captures
pub mod Paths
use Prim.Native.String.{String}
use typeway.Base.{
  ℕ, zero, suc, ◌+◌, ◌-◌, Bool, true, false, ◌&&◌, List, [], ◌∷◌, ◌++◌, map, Option, none, some,
  ltb, leb, ◌==◌, length, take, if◌then◌else◌,
}
use typeway.Base.Options.{◌>>=◌}
use typeway.Grpc.Parse.Chars.{text, to_string}
use typeway.Grpc.Diff.{decimal}
use typeway.Binary.Json.{Json}
use typeway.Router.Method.{Method}

-- `Uri` of the http crate, and the values of request extensions and other headers.
pub record Http : Type 1 where
  pub Uri : Type 0
  pub Extensions : Type 0
  pub parse_uri : List ℕ → Option Uri
  pub default_uri : Uri

-- The headers that the server reads or writes (their text, where it is visible ASCII), and the others.
pub record Headers : Type 0 where
  pub content_type : Option (Option String)
  pub grpc_timeout : Option (Option (List ℕ))
  pub others : List (List ℕ × List ℕ)

pub record Parts (W : Http) : Type 0 where
  pub method : Method
  pub uri : W.Uri
  pub headers : Headers
  pub extensions : W.Extensions

-- `GrpcMethodDescriptor` of typeway-grpc/src/service.rs
pub record GrpcMethodDescriptor : Type 0 where
  pub name : String
  pub full_path : List ℕ
  pub http_method : Method
  pub rest_path : List ℕ
  pub server_streaming : Bool
  pub client_streaming : Bool

-- `matches("{}").count()`
unfoldable pub placeholder_count : List ℕ → ℕ
placeholder_count [] = 0
placeholder_count (a ∷ []) = 0
placeholder_count (a ∷ b ∷ rest) =
    let found = suc (placeholder_count rest) in
    let skipped = placeholder_count (b ∷ rest) in
    if (a == b'{') && (b == b'}') then found else skipped

-- `replacen("{}", value, 1)`
unfoldable pub replace_first : List ℕ → List ℕ → List ℕ
replace_first value [] = []
replace_first value (a ∷ []) = a ∷ []
replace_first value (a ∷ b ∷ rest) =
    let skipped = a ∷ replace_first value (b ∷ rest) in
    if (a == b'{') && (b == b'}') then value ++ rest else skipped

-- The loop over the capture values.
unfoldable pub substitute : List ℕ → List (List ℕ) → List ℕ
unfolding replace_first
substitute path [] = path
substitute path (value ∷ values) = substitute (replace_first value path) values

unfoldable pub repeat : ℕ → List (List ℕ)
repeat zero = []
repeat (suc n) = [] ∷ repeat n

-- `while values.len() < placeholder_count { values.push(String::new()) }`
unfoldable pub pad : ℕ → List (List ℕ) → List (List ℕ)
unfolding repeat
pad count values = values ++ repeat (count - length values)

-- `format!("param{i}")`
unfoldable pub param_name : ℕ → String
unfolding decimal
param_name i = to_string (text "param" ++ text (decimal i))

unfoldable pub id_fields : List String
id_fields = "id" ∷ "user_id" ∷ "item_id" ∷ "name" ∷ "slug" ∷ []

-- `display` is the `Display` of a JSON value.
module _ (J : Json) (display : J.Value → List ℕ) where
  unfoldable pub json_value_to_string : J.Value → List ℕ
  json_value_to_string val = elim (J.as_str val) [ some s ↦ s | none ↦ display val ]

  -- The values of `param1` up to the count, from `i` on, where they are there.
  unfoldable pub named_captures : J.Map → ℕ → ℕ → List (List ℕ)
  unfolding json_value_to_string param_name
  named_captures obj i zero = []
  named_captures obj i (suc n) =
      let rest = named_captures obj (i + 1) n in
      elim (J.get obj (param_name i)) [ some val ↦ json_value_to_string val ∷ rest | none ↦ rest ]

  -- The loop over `id_fields`, which stops at the count.
  unfoldable pub common_captures : J.Map → ℕ → List String → List (List ℕ) → List (List ℕ)
  unfolding json_value_to_string
  common_captures obj count [] values = values
  common_captures obj count (field ∷ fields) values =
      let rest = common_captures obj count fields (elim (J.get obj field) [
        | some val ↦ values ++ json_value_to_string val ∷ []
        | none ↦ values
      ]) in
      if leb count (length values) then values else rest

  unfoldable pub first_captures : J.Map → ℕ → List (List ℕ)
  unfolding json_value_to_string
  first_captures obj count = take count (map (λ e. json_value_to_string (e.1)) (J.entries obj))

  unfoldable pub fallback_captures : J.Map → ℕ → List (List ℕ)
  unfolding common_captures first_captures pad id_fields
  fallback_captures obj count =
      let values = common_captures obj count id_fields [] in
      pad count (if ltb (length values) count then first_captures obj count else values)

  unfoldable pub extract_capture_values : J.Value → List ℕ → List (List ℕ)
  unfolding placeholder_count named_captures fallback_captures repeat
  extract_capture_values message rest_path =
      let count = placeholder_count rest_path in
      if count == 0 then [] else elim (J.as_object message) [
        | none ↦ repeat count
        | some obj ↦
            let values = named_captures obj 1 count in
            if length values == count then values else fallback_captures obj count
      ]

  -- The URI's text: `contains("{}")` holds where a placeholder is counted.
  unfoldable pub synthetic_uri : List ℕ → J.Value → List ℕ
  unfolding placeholder_count extract_capture_values substitute
  synthetic_uri rest_path message =
      if ltb 0 (placeholder_count rest_path)
      then substitute rest_path (extract_capture_values message rest_path)
      else rest_path

  abbrev pub or_default {ℓ} : {A : Type ℓ} → Option A → A → A
  or_default none d = d
  or_default (some a) d = a

  abbrev pub inject {ℓ} : {A : Type ℓ} → Option (A → A) → A → A
  inject none a = a
  inject (some f) a = f a

  module _ (W : Http) where
    unfoldable pub build_synthetic_request_raw :
        Parts W → Option (W.Extensions → W.Extensions) → Parts W
    build_synthetic_request_raw original injector = record original {
      extensions = inject injector original.extensions;
    }

    unfoldable pub build_synthetic_request :
        Parts W
        → GrpcMethodDescriptor
        → J.Value
        → Option (W.Extensions → W.Extensions)
        → Parts W × List ℕ
    unfolding synthetic_uri
    build_synthetic_request original desc message injector = (
      record {
        method = desc.http_method;
        uri =
            or_default (W.parse_uri (synthetic_uri desc.rest_path message))
              (or_default (W.parse_uri desc.rest_path) W.default_uri);
        headers = record original.headers { content_type = some (some "application/json") };
        extensions = inject injector original.extensions;
      },
      or_default (J.to_vec message) [],
    )

-- ===== src/Negotiate/Response.antt =====
-- negotiate.rs: the formats, and the response in the chosen one.
use typeway.Base.{
  ℕ, Bool, List, [], ◌∷◌, ◌++◌, map, Option, none, some, get_elem?, if◌then◌else◌, ◌⊎◌, inl, inr,
}
use typeway.Base.Options.{◌>>=◌}
use typeway.Grpc.Parse.Chars.{Text, text}
use typeway.Negotiate.{Floats, best_match}

-- `Result<(Vec<u8>, &'static str), String>`
pub data Rendered : Type 0 where
  rendered : (body : List ℕ) (content_type : Text) → Rendered
  failed : (message : Text) → Rendered

-- A format marker with `T: RenderAs<F>`
pub record RenderAs {ℓ} (T : Type ℓ) : Type ℓ where
  pub content_type : Text
  pub render : T → Rendered

unfoldable pub json_format : Text
json_format = text "application/json"

unfoldable pub text_format : Text
text_format = text "text/plain; charset=utf-8"

unfoldable pub html_format : Text
html_format = text "text/html; charset=utf-8"

unfoldable pub csv_format : Text
csv_format = text "text/csv"

unfoldable pub xml_format : Text
xml_format = text "application/xml"

-- The blanket `RenderAs` implementations, with serde_json's `to_vec`, `Display` and `to_xml`.
module _ {ℓ} {T : Type ℓ} where
  unfoldable pub render_json : (to_vec : T → List ℕ ⊎ Text) → T → Rendered
  unfolding json_format
  render_json to_vec value = elim (to_vec value) [
    | inl body ↦ rendered body json_format
    | inr e ↦ failed e
  ]

  unfoldable pub render_text : (into_bytes : Text → List ℕ) (to_string : T → Text) → T → Rendered
  unfolding text_format
  render_text into_bytes to_string value = rendered (into_bytes (to_string value)) text_format

  unfoldable pub render_xml : (into_bytes : Text → List ℕ) (to_xml : T → Text) → T → Rendered
  unfolding xml_format
  render_xml into_bytes to_xml value = rendered (into_bytes (to_xml value)) xml_format

module _ {ℓ} {T : Type ℓ} where
  abbrev pub content_types : List (RenderAs T) → List Text
  content_types = map (λ f. f.content_type)

  -- `(renderers[idx])(value)`. `none`: the index is out of bounds.
  abbrev pub render_at : List (RenderAs T) → ℕ → T → Option Rendered
  render_at formats idx value = get_elem? formats idx >>= λ f. some (f.render value)

  -- The tuples of the formats, which are never empty; a single format ignores the header.
  unfoldable pub negotiate_and_render :
      Floats → List (RenderAs T) → T → Option Text → Option Rendered
  unfolding best_match
  negotiate_and_render fl [] value accept = none
  negotiate_and_render fl (f ∷ []) value accept = some (f.render value)
  negotiate_and_render fl (f ∷ g ∷ formats) value accept =
      let all = f ∷ g ∷ formats in render_at all (best_match fl accept (content_types all)) value

-- The parts of the response that the code sets.
pub data Body : Type 0 where
  bytes : List ℕ → Body
  string : Text → Body

pub record Response : Type 0 where
  pub status : ℕ
  pub content_type : Option Text
  pub body : Body

-- `header_value` tells which texts `HeaderValue::from_str` accepts.
unfoldable pub answer : (header_value : Text → Bool) → Rendered → Response
answer header_value (rendered body content_type) = record {
  status = 200;
  content_type = if header_value content_type then some content_type else none;
  body = bytes body;
}
answer header_value (failed message) = record {
  status = 500;
  content_type = none;
  body = string (text "negotiation error: " ++ message);
}

module _ {ℓ} {T : Type ℓ} where
  unfoldable pub into_response :
      Floats → (Text → Bool) → List (RenderAs T) → T → Option Text → Option Response
  unfolding negotiate_and_render answer
  into_response fl header_value formats value accept =
      negotiate_and_render fl formats value accept >>= λ r. some (answer header_value r)

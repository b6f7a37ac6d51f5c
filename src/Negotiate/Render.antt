-- ===== src/Negotiate/Render.antt =====
-- The chosen format exists: `renderers[idx]` stays in bounds, and the response carries its type.
use typeway.Base.{
  ℕ, zero, suc, ◌<◌, ◌≡◌, refl, sym, ap, ◌∙◌, subst, Bool, List, [], ◌∷◌, map, Option, none, some,
  length, get_elem?, if◌then◌else◌, All, arith,
}
use typeway.Grpc.Parse.Chars.{Text}
use typeway.Base.Options.{◌>>=◌}
use typeway.Negotiate.{
  Floats, Entry, first_supported, first_match, parse_accept, best_match, or_zero,
}
use typeway.Negotiate.Preferred.{IsOrdered, AllNumbers, header_entries, preferred}
use typeway.Negotiate.Best.{best_match-IsBest}
use typeway.Negotiate.Response.{
  Rendered, rendered, failed, RenderAs, content_types, negotiate_and_render, answer, bytes,
  Response, into_response,
}

-- An index that was found is below the bound.
abbrev Below : ℕ → Option ℕ → Type 0
Below n none = Unit {0}
Below n (some i) = i < n

-- An index that is found is one of the supported types.
first_supported_bounds :
    (media_type : Text) (supported : List Text)
    → Below (length supported) (first_supported media_type supported)
unfolding first_supported
first_supported_bounds media_type [] = tt
first_supported_bounds media_type (s ∷ supported) =
    ground (arith, first_supported_bounds media_type supported)

first_match_bounds :
    (fl : Floats) (l : List (Entry fl)) (supported : List Text)
    → Below (length supported) (first_match fl l supported)
unfolding first_match
first_match_bounds fl [] supported = tt
first_match_bounds fl (e ∷ l) supported =
    ground (arith, first_supported_bounds (e.0) supported, first_match_bounds fl l supported)

module _ (fl : Floats) where
  best_match_bounds :
      (accept : Option Text) (supported : List Text)
      → 0 < length supported
      → best_match fl accept supported < length supported
  unfolding best_match
  best_match_bounds none supported h = h
  best_match_bounds (some accept) supported h =
      ground (arith, first_match_bounds fl (parse_accept fl accept) supported)

get_elem?-below {ℓ} :
    {A : Type ℓ} (xs : List A) (i : ℕ) → i < length xs → (a : A) × (get_elem? xs i ≡ some a)
get_elem?-below [] i h = elim h [ ]
get_elem?-below (x ∷ xs) zero h = (x, refl)
get_elem?-below (x ∷ xs) (suc i) h = get_elem?-below xs i (omega arith)

All-get {ℓ κ} :
    {A : Type ℓ} (P : A → Type κ) (xs : List A) (i : ℕ) {a : A}
    → All P xs
    → get_elem? xs i ≡ some a
    → P a
All-get P [] i h e = cc
All-get P (x ∷ xs) zero (p, h) e = let q : some x ≡ some _ = e in subst P (cc q) p
All-get P (x ∷ xs) (suc i) (p, h) e = All-get P xs i h e

length-map {ℓ κ} :
    {A : Type ℓ} {B : Type κ} (f : A → B) (xs : List A) → length (map f xs) ≡ length xs
length-map f [] = refl
length-map f (x ∷ xs) = omega (arith, length-map f xs)

module _ {T : Type 0} (fl : Floats) (value : T) where
  -- The format at the index that `best_match` gives, and its rendering.
  abbrev pub Chosen : Option Text → List (RenderAs T) → Option Rendered → Type 0
  Chosen accept formats r =
      (f : RenderAs T) × (get_elem? formats (best_match fl accept (content_types formats)) ≡ some f)
      × (r ≡ some (f.render value))

  -- With at least one format the index never leaves the renderers, and the value is rendered in the
  -- format that `best_match` chose; the special case of a single format, which does not read the
  -- header, is no exception.
  pub negotiate_and_render-Chosen :
      (f : RenderAs T) (formats : List (RenderAs T)) (accept : Option Text)
      → Chosen accept (f ∷ formats) (negotiate_and_render fl (f ∷ formats) value accept)
  unfolding negotiate_and_render
  negotiate_and_render-Chosen f [] accept =
      let bound = best_match_bounds fl accept (content_types (f ∷ [])) (omega arith) in
      let first : best_match fl accept (content_types (f ∷ [])) ≡ 0 = omega arith in
      (f, rw first refl, refl)
  negotiate_and_render-Chosen f (g ∷ formats) accept =
      let all = f ∷ g ∷ formats in
      let bound = best_match_bounds fl accept (content_types all) (omega arith) in
      let (chosen, found) =
        get_elem?-below all (best_match fl accept (content_types all))
          (omega (arith, length-map (λ (h : RenderAs T). h.content_type) all)) in
      (chosen, found, rw found refl)

  -- A format's implementation names its own content type.
  abbrev pub IsHonest : RenderAs T → Type 0
  IsHonest f =
      (body : List ℕ) (content_type : Text)
      → f.render value ≡ rendered body content_type
      → content_type ≡ f.content_type

  -- The response that stands for what the format rendered.
  abbrev pub Represents : (Text → Bool) → RenderAs T → Rendered → Response → Type 0
  Represents header_value f (rendered body content_type) response =
      (response.status ≡ 200)
      × (response.body ≡ bytes body)
      × (response.content_type
          ≡ (if header_value (f.content_type) then some (f.content_type) else none))
  Represents header_value f (failed message) response =
      (response.status ≡ 500) × (response.content_type ≡ none)

  answer-Represents :
      (header_value : Text → Bool) (f : RenderAs T) (r : Rendered)
      → f.render value ≡ r
      → IsHonest f
      → Represents header_value f r (answer header_value r)
  unfolding answer
  answer-Represents header_value f (rendered body content_type) e honest =
      (refl, refl, rw (honest body content_type e) refl)
  answer-Represents header_value f (failed message) e honest = (refl, refl)

  -- No quality of the header, if there is one, is NaN.
  abbrev pub HasNumbers : Option Text → Type 0
  HasNumbers none = Unit
  HasNumbers (some accept) = AllNumbers fl (header_entries fl accept)

  -- The index of the first format that the preferred entry of the header admits.
  abbrev pub best_index : Option Text → List (RenderAs T) → ℕ
  best_index none formats = 0
  best_index (some accept) formats =
      let supported = content_types formats in
      or_zero fl
        (preferred fl supported (header_entries fl accept) >>= λ e. first_supported (e.0) supported)

  best_match-best_index :
      (order : IsOrdered fl) (accept : Option Text) (formats : List (RenderAs T))
      → HasNumbers accept
      → best_match fl accept (content_types formats) ≡ best_index accept formats
  unfolding best_match
  best_match-best_index order none formats h = refl
  best_match-best_index order (some accept) formats h =
      (best_match-IsBest fl order (content_types formats) accept h).0

  -- Where no quality of the header is NaN, and each format names its own content type, there is a
  -- response: status 200 with the rendered bytes and the content type of the chosen format (if that
  -- is a header value), or status 500 without a content type where that format fails. The chosen
  -- format is the first that the preferred entry of the header admits, and the first of all where
  -- there is no such entry or no header.
  pub into_response-Represents :
      (order : IsOrdered fl) (header_value : Text → Bool) (f : RenderAs T)
      (formats : List (RenderAs T)) (accept : Option Text)
      → All IsHonest (f ∷ formats)
      → HasNumbers accept
      → (chosen : RenderAs T) × (response : Response) × (get_elem?
            (f ∷ formats)
            (best_index accept (f ∷ formats))
          ≡ some chosen)
        × (into_response fl header_value (f ∷ formats) value accept ≡ some response)
        × Represents header_value chosen (chosen.render value) response
  unfolding into_response
  into_response-Represents order header_value f formats accept honest numbers =
      let (chosen, found, e) = negotiate_and_render-Chosen f formats accept in
      (
        chosen,
        answer header_value (chosen.render value),
        ap (get_elem? (f ∷ formats))
              (sym (best_match-best_index order accept (f ∷ formats) numbers))
            ∙ found,
        rw e refl,
        answer-Represents header_value chosen (chosen.render value) refl
            (All-get IsHonest (f ∷ formats) _ honest found),
      )

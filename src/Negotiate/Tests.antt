-- ===== src/Negotiate/Tests.antt =====
-- Tests of negotiate.rs, and its theorems at concrete headers. The qualities are tenths here.
use Prim.Native.Nat.{Ordering, compare}
use typeway.Base.{
  ℕ, ◌+◌, ◌*◌, ◌≡◌, refl, true, false, List, [], ◌∷◌, Option, none, some, get_elem?, if◌then◌else◌,
  arith,
}
use typeway.Base.Options.{◌>>=◌}
use typeway.Grpc.Parse.Chars.{Text, text, text_eq, split, split_once, parse_u32, trim}
use typeway.Negotiate.{Floats, first_supported, accept_entries, best_match, or_zero}
use typeway.Negotiate.Response.{
  rendered, failed, RenderAs, negotiate_and_render, into_response, Response,
}
use typeway.Negotiate.Preferred.{exceeds, IsOrdered, IsNumber, preferred, IsBest, header_entries}
use typeway.Negotiate.Best.{best_match-IsBest}
use typeway.Negotiate.Render.{
  best_index, Chosen, Represents, negotiate_and_render-Chosen, into_response-Represents,
}

-- `none` is NaN.
abbrev tenths : Text → Option (Option ℕ)
tenths t = if text_eq t (text "NaN") then some none else elim (split_once b'.' t) [
  | none ↦ parse_u32 t >>= λ n. some (some (n * 10))
  | some r ↦ parse_u32 (r.0) >>= λ n. parse_u32 (r.1) >>= λ m. some (some (n * 10 + m))
]

abbrev compare_tenths : Option ℕ → Option ℕ → Option Ordering
compare_tenths none b = none
compare_tenths (some a) none = none
compare_tenths (some a) (some b) = some (compare a b)

abbrev tenth_floats : Floats
tenth_floats = record {
  F32 = Option ℕ;
  one = some 10;
  parse = tenths;
  partial_cmp = compare_tenths;
}

tenths-asym : (a b : Option ℕ) → exceeds tenth_floats a b ≡ true → exceeds tenth_floats b a ≡ false
unfolding exceeds
tenths-asym none b h = cc
tenths-asym (some a) none h = cc
tenths-asym (some a) (some b) h = ground arith

tenths-through :
    (a b c : Option ℕ)
    → IsNumber tenth_floats a
    → IsNumber tenth_floats b
    → IsNumber tenth_floats c
    → exceeds tenth_floats a b ≡ true
    → exceeds tenth_floats a c ≡ false
    → exceeds tenth_floats c b ≡ true
unfolding exceeds
tenths-through none b c na nb nc h k = cc
tenths-through (some a) none c na nb nc h k = cc
tenths-through (some a) (some b) none na nb nc h k = cc
tenths-through (some a) (some b) (some c) na nb nc h k = ground arith

abbrev tenths_ordered : IsOrdered tenth_floats
tenths_ordered = record { asym = tenths-asym; through = tenths-through }

abbrev both_types : List Text
both_types = text "application/json" ∷ text "text/plain; charset=utf-8" ∷ []

abbrev weighted : Text
weighted = text "application/json;q=0.5, text/*;q=0.9"

reads_weighted :
    accept_entries tenth_floats (split b',' weighted)
    ≡ (text "application/json", some 5) ∷ (text "text/*", some 9) ∷ []
unfolding accept_entries split split_once parse_u32 trim
reads_weighted = refl

chooses_text : best_match tenth_floats (some weighted) both_types ≡ 1
unfolding best_match split split_once parse_u32 trim
chooses_text = refl

-- A quality of zero is a candidate like any other.
chooses_refused : best_match tenth_floats (some (text "text/plain;q=0")) both_types ≡ 1
unfolding best_match split split_once parse_u32 trim
chooses_refused = refl

best_match-IsBest_example :
    (best_match tenth_floats (some weighted) both_types
      ≡ or_zero tenth_floats (
          preferred tenth_floats both_types (header_entries tenth_floats weighted) >>= λ e.
          first_supported (e.0) both_types))
    × IsBest tenth_floats both_types
        (header_entries tenth_floats weighted)
        (preferred tenth_floats both_types (header_entries tenth_floats weighted))
best_match-IsBest_example =
    best_match-IsBest tenth_floats tenths_ordered both_types weighted
      (rw reads_weighted (refl, (refl, tt)))

abbrev json_of : RenderAs ℕ
json_of = record {
  content_type = text "application/json";
  render = λ n. rendered (n ∷ []) (text "application/json");
}

abbrev text_of : RenderAs ℕ
text_of = record {
  content_type = text "text/plain; charset=utf-8";
  render = λ n. failed (text "no");
}

negotiate_and_render-Chosen_example :
    Chosen tenth_floats 7
      (some weighted)
      (json_of ∷ text_of ∷ [])
      (negotiate_and_render tenth_floats (json_of ∷ text_of ∷ []) 7 (some weighted))
negotiate_and_render-Chosen_example =
    negotiate_and_render-Chosen tenth_floats 7 json_of (text_of ∷ []) (some weighted)

into_response-Represents_example :
    (chosen : RenderAs ℕ) × (response : Response) × (get_elem?
        (json_of ∷ text_of ∷ [])
        (best_index tenth_floats 7 (some weighted) (json_of ∷ text_of ∷ []))
      ≡ some chosen)
    × (into_response tenth_floats (λ t. true) (json_of ∷ text_of ∷ []) 7 (some weighted)
        ≡ some response)
    × Represents tenth_floats 7 (λ t. true) chosen (chosen.render 7) response
into_response-Represents_example =
    into_response-Represents tenth_floats 7 tenths_ordered (λ t. true) json_of (text_of ∷ [])
      (some weighted) ((λ b ct e. cc), ((λ b ct e. cc), tt)) (rw reads_weighted (refl, (refl, tt)))

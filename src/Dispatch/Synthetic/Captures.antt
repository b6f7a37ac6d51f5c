-- ===== src/Dispatch/Synthetic/Captures.antt =====
-- There is a value for each placeholder of the REST path.
use Prim.Native.String.{String}
use typeway.Base.{
  ℕ, zero, suc, ◌-◌, ◌≤◌, ◌≡◌, refl, sym, ap, inl, inr, true, List, [], ◌∷◌, ◌++◌, ltb, leb, ◌==◌,
  length, take, length-append, Bool-cases, Option-cases, arith,
}
use typeway.Binary.Json.{Json}
use typeway.Dispatch.Synthetic.{
  placeholder_count, repeat, json_value_to_string, named_captures, common_captures, first_captures,
  pad, fallback_captures, extract_capture_values, id_fields,
}

==→eq : (a b : ℕ) → (a == b) ≡ true → a ≡ b
==→eq a b h = ground arith

length-repeat : (n : ℕ) → length (repeat n) ≡ n
unfolding repeat
length-repeat zero = refl
length-repeat (suc n) = ap suc (length-repeat n)

length-take-le {ℓ} : {A : Type ℓ} (n : ℕ) (xs : List A) → length (take n xs) ≤ n
length-take-le zero [] = omega arith
length-take-le zero (x ∷ xs) = omega arith
length-take-le (suc n) [] = omega arith
length-take-le (suc n) (x ∷ xs) = omega (arith, length-take-le n xs)

length-pad : (n : ℕ) (values : List (List ℕ)) → length values ≤ n → length (pad n values) ≡ n
unfolding pad
length-pad n values h =
    omega
      (arith, length-append values (repeat (n - length values)), length-repeat (n - length values))

module _ (json : Json) (display : json.Value → List ℕ) (obj : json.Map) (count : ℕ) where
  -- The loop takes no value behind the count.
  common_captures_bounds :
      (fields : List String) (values : List (List ℕ))
      → length values ≤ count
      → length (common_captures json display obj count fields values) ≤ count
  unfolding common_captures
  common_captures_bounds [] values h = h
  common_captures_bounds (field ∷ fields) values h = elim (Bool-cases (leb count (length values))) [
    | inl full ↦ rw full h
    | inr short ↦ rw short (elim (Option-cases (json.get obj field)) [
      | inl e ↦ rw e (common_captures_bounds fields values h)
      | inr (val, e) ↦ rw e (
          common_captures_bounds fields (values ++ json_value_to_string json display val ∷ [])
            (ground (arith, length-append values (json_value_to_string json display val ∷ []))))
    ])
  ]

  length-fallback_captures : length (fallback_captures json display obj count) ≡ count
  unfolding fallback_captures first_captures
  length-fallback_captures =
      let values = common_captures json display obj count id_fields [] in
      let bound = common_captures_bounds id_fields [] (omega arith) in
      elim (Bool-cases (ltb (length values) count)) [
        | inl short ↦ rw short (length-pad count _ (length-take-le count _))
        | inr full ↦ rw full (length-pad count values bound)
      ]

-- Whatever the message (no object, or an object with any fields), there are as many capture values
-- as the path has placeholders, by whichever of the fallbacks they are found.
pub length-extract_capture_values :
    (json : Json) (display : json.Value → List ℕ) (message : json.Value) (rest_path : List ℕ)
    → length (extract_capture_values json display message rest_path) ≡ placeholder_count rest_path
unfolding extract_capture_values
length-extract_capture_values json display message rest_path =
    let count = placeholder_count rest_path in
    elim (Bool-cases (count == 0)) [
      | inl none_there ↦ rw none_there (sym (==→eq count 0 none_there))
      | inr some_there ↦ rw some_there (elim (Option-cases (json.as_object message)) [
        | inl e ↦ rw e (length-repeat count)
        | inr (obj, e) ↦
            rw e (elim (Bool-cases (length (named_captures json display obj 1 count) == count)) [
              | inl all ↦ rw all (==→eq _ count all)
              | inr few ↦ rw few (length-fallback_captures json display obj count)
            ])
      ])
    ]

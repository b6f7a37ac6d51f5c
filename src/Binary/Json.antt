-- ===== src/Binary/Json.antt =====
-- The values of the `serde_json` crate and its objects, as an interface. A u64 is a number, an i64 is
-- its 64 bits, and a float is its bits.
use Prim.Native.String.{String}
use text.Mathlib.Text.{◌==◌ as ◌=ₛ◌}
use typeway.Base.{
  ℕ, ◌/◌, ◌%◌, ◌^◌, ◌<◌, ◌≡◌, ◌≢◌, ◌==◌, ltb, Bool, List, Option, none, some, if◌then◌else◌,
}

-- The bits of an f64 that is neither infinite nor NaN.
abbrev pub IsFinite : ℕ → Type 0
IsFinite b = (b < 2 ^ 64) × (b / 2 ^ 52 % 2 ^ 11 ≢ 2047)

pub record Json : Type 1 where
  pub Value : Type 0
  pub Map : Type 0
  pub is_null : Value → Bool
  pub as_bool : Value → Option Bool
  pub as_u64 : Value → Option ℕ
  pub as_i64 : Value → Option ℕ
  pub as_f64 : Value → Option ℕ
  -- the bytes of the text
  pub as_str : Value → Option (List ℕ)
  pub as_array : Value → Option (List Value)
  pub as_object : Value → Option Map
  pub of_bool : Bool → Value
  pub of_u64 : ℕ → Value
  pub of_i64 : ℕ → Value
  pub of_f64 : ℕ → Value
  pub of_str : List ℕ → Value
  pub of_key : String → Value
  pub of_array : List Value → Value
  pub of_object : Map → Value
  pub new : Map
  pub get : Map → String → Option Value
  pub insert : String → Value → Map → Map
  pub entries : Map → List (String × Value)
  -- `serde_json::to_vec` and `from_slice`
  pub to_vec : Value → Option (List ℕ)
  pub from_slice : List ℕ → Option Value
  -- the casts between floats and integers
  pub f64_is_zero : ℕ → Bool
  pub f64_as_u64 : ℕ → ℕ
  pub f64_as_i64 : ℕ → ℕ
  pub f64_as_f32 : ℕ → ℕ
  pub f32_as_f64 : ℕ → ℕ
  pub u64_as_f64 : ℕ → ℕ
  pub i64_as_f64 : ℕ → ℕ
  pub as_bool-of_bool : (b : Bool) → as_bool (of_bool b) ≡ some b
  pub as_u64-of_u64 : (n : ℕ) → n < 2 ^ 64 → as_u64 (of_u64 n) ≡ some n
  pub as_i64-of_i64 : (n : ℕ) → n < 2 ^ 64 → as_i64 (of_i64 n) ≡ some n
  -- A number is given as any type that holds it, and as a float always.
  pub as_i64-of_u64 :
      (n : ℕ) → n < 2 ^ 64 → as_i64 (of_u64 n) ≡ (if ltb n (2 ^ 63) then some n else none)
  pub as_u64-of_i64 :
      (n : ℕ) → n < 2 ^ 64 → as_u64 (of_i64 n) ≡ (if ltb n (2 ^ 63) then some n else none)
  pub as_f64-of_u64 : (n : ℕ) → n < 2 ^ 64 → as_f64 (of_u64 n) ≡ some (u64_as_f64 n)
  pub as_f64-of_i64 : (n : ℕ) → n < 2 ^ 64 → as_f64 (of_i64 n) ≡ some (i64_as_f64 n)
  pub as_f64-of_f64 : (b : ℕ) → IsFinite b → as_f64 (of_f64 b) ≡ some b
  pub f64_is_zero-u64_as_f64 : (n : ℕ) → n < 2 ^ 64 → f64_is_zero (u64_as_f64 n) ≡ (n == 0)
  pub f64_is_zero-i64_as_f64 : (n : ℕ) → n < 2 ^ 64 → f64_is_zero (i64_as_f64 n) ≡ (n == 0)
  pub f64_as_f32-f32_as_f64 :
      (b : ℕ) → b < 2 ^ 32 → IsFinite (f32_as_f64 b) → f64_as_f32 (f32_as_f64 b) ≡ b
  pub as_str-of_str : (s : List ℕ) → as_str (of_str s) ≡ some s
  pub as_object-of_object : (m : Map) → as_object (of_object m) ≡ some m
  pub get-new : (k : String) → get new k ≡ none
  pub get-insert :
      (k j : String) (v : Value) (m : Map)
      → get (insert k v m) j ≡ (if k =ₛ j then some v else get m j)

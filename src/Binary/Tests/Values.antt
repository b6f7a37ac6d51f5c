-- ===== src/Binary/Tests/Values.antt =====
-- JSON values for the tests: the interface can be filled. Floats are numbers, and no value has a text.
use Prim.Native.String.{String}
use text.Mathlib.Text.{◌==◌ as ◌=ₛ◌}
use typeway.Base.{
  ℕ, ◌^◌, ◌<◌, ◌≡◌, refl, Bool, true, false, List, [], ◌∷◌, Option, none, some, ltb, ◌==◌,
  if◌then◌else◌, Bool-cases, inl, inr,
}
use typeway.Binary.Base64.{codes}
use typeway.Binary.Json.{Json}

mutual
  pub data Value : Type 0 where
    null : Value
    boolean : Bool → Value
    -- the 64 bits, and whether they are those of a negative number
    number : ℕ → Bool → Value
    float : ℕ → Value
    str : List ℕ → Value
    array : Items → Value
    object : Members → Value

  pub data Items : Type 0 where
    end : Items
    item : Value → Items → Items

  pub data Members : Type 0 where
    empty : Members
    member : String → Value → Members → Members

abbrev pub items : List Value → Items
items [] = end
items (v ∷ vs) = item v (items vs)

abbrev pub values : Items → List Value
values end = []
values (item v vs) = v ∷ values vs

abbrev pub get : Members → String → Option Value
get empty k = none
get (member j v m) k = if j =ₛ k then some v else get m k

abbrev pub entries : Members → List (String × Value)
entries empty = []
entries (member k v m) = (k, v) ∷ entries m

abbrev as_unsigned : Value → Option ℕ
as_unsigned (number n false) = some n
as_unsigned _ = none

abbrev as_signed : Value → Option ℕ
as_signed (number n true) = some n
as_signed (number n false) = if ltb n (2 ^ 63) then some n else none
as_signed _ = none

abbrev of_signed : ℕ → Value
of_signed n = if ltb n (2 ^ 63) then number n false else number n true

pub as_signed-of_signed : (n : ℕ) → n < 2 ^ 64 → as_signed (of_signed n) ≡ some n
as_signed-of_signed n h = elim (Bool-cases (ltb n (2 ^ 63))) [
  | inl t ↦ rw t (rw t refl)
  | inr f ↦ rw f refl
]

pub as_unsigned-of_signed :
    (n : ℕ) → as_unsigned (of_signed n) ≡ (if ltb n (2 ^ 63) then some n else none)
as_unsigned-of_signed n = elim (Bool-cases (ltb n (2 ^ 63))) [
  | inl t ↦ rw t refl
  | inr f ↦ rw f refl
]

abbrev as_bool : Value → Option Bool
as_bool (boolean b) = some b
as_bool _ = none

abbrev as_float : Value → Option ℕ
as_float (float n) = some n
as_float (number n negative) = some n
as_float _ = none

pub as_float-of_signed : (n : ℕ) → as_float (of_signed n) ≡ some n
as_float-of_signed n = elim (Bool-cases (ltb n (2 ^ 63))) [ inl t ↦ rw t refl | inr f ↦ rw f refl ]

abbrev text_of : Value → Option (List ℕ)
text_of (str s) = some s
text_of _ = none

abbrev as_array : Value → Option (List Value)
as_array (array vs) = some (values vs)
as_array _ = none

abbrev as_object : Value → Option Members
as_object (object m) = some m
as_object _ = none

abbrev is_null : Value → Bool
is_null null = true
is_null _ = false

abbrev pub sample : Json
sample = record {
  Value = Value;
  Map = Members;
  is_null = is_null;
  as_bool = as_bool;
  as_u64 = as_unsigned;
  as_i64 = as_signed;
  as_f64 = as_float;
  as_str = text_of;
  as_array = as_array;
  as_object = as_object;
  of_bool = boolean;
  of_u64 = λ n. number n false;
  of_i64 = of_signed;
  of_f64 = float;
  of_str = str;
  of_key = λ k. str (codes k);
  of_array = λ vs. array (items vs);
  of_object = object;
  new = empty;
  get = get;
  insert = member;
  entries = entries;
  to_vec = λ v. some [];
  from_slice = λ bytes. none;
  f64_is_zero = λ n. n == 0;
  f64_as_u64 = λ n. n;
  f64_as_i64 = λ n. n;
  f64_as_f32 = λ n. n;
  f32_as_f64 = λ n. n;
  u64_as_f64 = λ n. n;
  i64_as_f64 = λ n. n;
  as_bool-of_bool = λ b. refl;
  as_u64-of_u64 = λ n h. refl;
  as_i64-of_i64 = as_signed-of_signed;
  as_i64-of_u64 = λ n h. refl;
  as_u64-of_i64 = λ n h. as_unsigned-of_signed n;
  as_f64-of_u64 = λ n h. refl;
  as_f64-of_i64 = λ n h. as_float-of_signed n;
  as_f64-of_f64 = λ b h. refl;
  f64_is_zero-u64_as_f64 = λ n h. refl;
  f64_is_zero-i64_as_f64 = λ n h. refl;
  f64_as_f32-f32_as_f64 = λ b h f. refl;
  as_str-of_str = λ s. refl;
  as_object-of_object = λ m. refl;
  get-new = λ k. refl;
  get-insert = λ k j v m. refl;
}

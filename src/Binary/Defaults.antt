-- ===== src/Binary/Defaults.antt =====
-- Which values are the default of their type, and that proto_codec.rs takes those for it.
use Prim.Native.String.{String}
use typeway.Base.{ℕ, ◌<◌, ◌^◌, ◌≡◌, refl, Bool, true, false, not, List, [], ◌∷◌, ◌==◌, arith}
use typeway.Binary.Base64 as Base64
use typeway.Binary.Json.{Json}
use typeway.Binary.Encode.{is_proto3_default}
use typeway.Binary.Scalars.{Fits}

abbrev is_nil : List ℕ → Bool
is_nil [] = true
is_nil (b ∷ bytes) = false

is_nil-encode : (bytes : List ℕ) → is_nil (Base64.encode bytes) ≡ is_nil bytes
unfolding Base64.encode
is_nil-encode [] = refl
is_nil-encode (b0 ∷ []) = refl
is_nil-encode (b0 ∷ b1 ∷ []) = refl
is_nil-encode (b0 ∷ b1 ∷ b2 ∷ rest) = refl

module _ (J : Json) where
  -- The default of a type, as protobuf has it: false, zero, and no characters or bytes.
  abbrev pub is_default : {t : String} {v : J.Value} → Fits J t v → Bool
  is_default (Fits.boolean b) = not b
  is_default (Fits.uint32 n h) = n == 0
  is_default (Fits.uint64 n h) = n == 0
  is_default (Fits.enumeration n h) = n == 0
  is_default (Fits.int32 n h e) = n == 0
  is_default (Fits.int64 n h) = n == 0
  is_default (Fits.sint32 n h e) = n == 0
  is_default (Fits.sint64 n h) = n == 0
  is_default (Fits.unsigned_fixed32 n h) = n == 0
  is_default (Fits.unsigned_fixed64 n h) = n == 0
  is_default (Fits.signed_fixed32 n h e) = n == 0
  is_default (Fits.signed_fixed64 n h) = n == 0
  is_default (Fits.double b h) = J.f64_is_zero b
  is_default (Fits.float b h f) = J.f64_is_zero (J.f32_as_f64 b)
  is_default (Fits.text s hs utf8 small) = is_nil s
  is_default (Fits.binary bs hb small) = is_nil bs

  abbrev reads_zero : J.Value → Bool
  reads_zero v = is_proto3_default J v "int32"

  reads_zero-u64 : (n : ℕ) → n < 2 ^ 64 → reads_zero (J.of_u64 n) ≡ (n == 0)
  unfolding is_proto3_default
  reads_zero-u64 n h =
      rw
        (
          J.as_i64-of_u64 n h,
          J.as_u64-of_u64 n h,
          J.as_f64-of_u64 n h,
          J.f64_is_zero-u64_as_f64 n h,
        )
        (ground arith)

  reads_zero-i64 : (n : ℕ) → n < 2 ^ 64 → reads_zero (J.of_i64 n) ≡ (n == 0)
  unfolding is_proto3_default
  reads_zero-i64 n h =
      rw
        (
          J.as_i64-of_i64 n h,
          J.as_u64-of_i64 n h,
          J.as_f64-of_i64 n h,
          J.f64_is_zero-i64_as_f64 n h,
        )
        (ground arith)

  -- A value is taken for the default of its type exactly where it is that.
  pub is_proto3_default-is_default :
      {t : String} {v : J.Value} (f : Fits J t v) → is_proto3_default J v t ≡ is_default f
  unfolding is_proto3_default
  is_proto3_default-is_default (Fits.boolean b) = rw (J.as_bool-of_bool b) refl
  is_proto3_default-is_default (Fits.uint32 n h) = reads_zero-u64 n (omega arith)
  is_proto3_default-is_default (Fits.uint64 n h) = reads_zero-u64 n h
  is_proto3_default-is_default (Fits.enumeration n h) = reads_zero-u64 n h
  is_proto3_default-is_default (Fits.int32 n h e) = reads_zero-i64 n h
  is_proto3_default-is_default (Fits.int64 n h) = reads_zero-i64 n h
  is_proto3_default-is_default (Fits.sint32 n h e) = reads_zero-i64 n h
  is_proto3_default-is_default (Fits.sint64 n h) = reads_zero-i64 n h
  is_proto3_default-is_default (Fits.unsigned_fixed32 n h) = reads_zero-u64 n (omega arith)
  is_proto3_default-is_default (Fits.unsigned_fixed64 n h) = reads_zero-u64 n h
  is_proto3_default-is_default (Fits.signed_fixed32 n h e) = reads_zero-i64 n h
  is_proto3_default-is_default (Fits.signed_fixed64 n h) = reads_zero-i64 n h
  is_proto3_default-is_default (Fits.double b h) = rw (J.as_f64-of_f64 b h) refl
  is_proto3_default-is_default (Fits.float b h f) = rw (J.as_f64-of_f64 (J.f32_as_f64 b) f) refl
  is_proto3_default-is_default (Fits.text s hs utf8 small) = rw (J.as_str-of_str s) refl
  is_proto3_default-is_default (Fits.binary bs hb small) =
      rw (J.as_str-of_str (Base64.encode bs)) (is_nil-encode bs)

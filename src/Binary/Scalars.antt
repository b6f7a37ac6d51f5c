-- ===== src/Binary/Scalars.antt =====
-- One scalar value, written and read back by proto_codec.rs.
use Prim.Native.String.{String}
use typeway.Base.{
  ℕ, ◌/◌, ◌%◌, ◌^◌, ◌<◌, ◌≡◌, refl, ap, ◌∙◌, Bool, true, false, List, ◌++◌, length, length-append,
  All, All-append, arith,
}
use typeway.Codec.Varint.{IsByte, IsU64, Varint-exists, Varint-IsByte, Varint-length_u64}
use typeway.Codec.Zigzag.{tw_zigzag_encode, tw_zigzag_decode}
use typeway.Codec.Zigzag.Signed.{tw_zigzag_encode-zigzag, tw_zigzag_decode-tw_zigzag_encode}
use typeway.Grpc.Message.Utf8.{is_utf8}
use typeway.Binary.Base64 as Base64
use typeway.Binary.Base64.RoundTrip as Base64RoundTrip
use typeway.Binary.Fields.{wire_type_for}
use typeway.Binary.Json.{Json, IsFinite}
use typeway.Binary.Wire.{
  Result, ok, encode_varint, zigzag_encode, zigzag_decode, WireValue, varint, fixed64,
  length_delimited, fixed32, decode_wire_value,
}
use typeway.Binary.Wire.Varints.{encode_varint-Varint}
use typeway.Binary.Wire.Extend.{decode_varint_all, decode_wire_value_delimited}
use typeway.Binary.Encode.{
  as_i32, le_bytes_4, le_bytes_8, with_length, fixed64_bytes, fixed32_bytes, delimited_bytes,
  json_as_u64, json_as_i64, json_to_varint, value_bytes,
}
use typeway.Binary.Decode.{from_le_bytes, wire_value_to_json}

le_bytes_4-IsByte : (n : ℕ) → All IsByte (le_bytes_4 n)
le_bytes_4-IsByte n = omega arith

from_le_bytes-le_bytes_4 : (n : ℕ) → from_le_bytes (le_bytes_4 n) ≡ n % 2 ^ 32
unfolding from_le_bytes
from_le_bytes-le_bytes_4 n = omega arith

from_le_bytes-le_bytes_8 : (n : ℕ) → n < 2 ^ 64 → from_le_bytes (le_bytes_8 n) ≡ n
unfolding from_le_bytes
from_le_bytes-le_bytes_8 n h =
    let low = from_le_bytes-le_bytes_4 n in
    let high = from_le_bytes-le_bytes_4 (n / 2 ^ 32) in omega arith

zigzag_decode-zigzag_encode : (v : ℕ) → IsU64 v → zigzag_decode (zigzag_encode v) ≡ v
unfolding zigzag_decode zigzag_encode tw_zigzag_encode tw_zigzag_decode
zigzag_decode-zigzag_encode v h = tw_zigzag_decode-tw_zigzag_encode v h

zigzag_encode-IsU64 : (v : ℕ) → IsU64 v → IsU64 (zigzag_encode v)
unfolding zigzag_encode tw_zigzag_encode
zigzag_encode-IsU64 v h = let e = tw_zigzag_encode-zigzag v h in ground arith

as_i32_low : (n : ℕ) → as_i32 (n % 2 ^ 32) ≡ as_i32 n
as_i32_low n = let e : n % 2 ^ 32 % 2 ^ 32 ≡ n % 2 ^ 32 = omega arith in rw e refl

module _ (J : Json) where
  -- The JSON values that stand for a value of a scalar type. An int32 is the i64 that it widens to.
  pub data Fits : String → J.Value → Type 0 where
    boolean : (b : Bool) → Fits "bool" (J.of_bool b)
    uint32 : (n : ℕ) → n < 2 ^ 32 → Fits "uint32" (J.of_u64 n)
    uint64 : (n : ℕ) → IsU64 n → Fits "uint64" (J.of_u64 n)
    enumeration : (n : ℕ) → IsU64 n → Fits "enum" (J.of_u64 n)
    int32 : (n : ℕ) → IsU64 n → as_i32 n ≡ n → Fits "int32" (J.of_i64 n)
    int64 : (n : ℕ) → IsU64 n → Fits "int64" (J.of_i64 n)
    sint32 : (n : ℕ) → IsU64 n → as_i32 n ≡ n → Fits "sint32" (J.of_i64 n)
    sint64 : (n : ℕ) → IsU64 n → Fits "sint64" (J.of_i64 n)
    unsigned_fixed32 : (n : ℕ) → n < 2 ^ 32 → Fits "fixed32" (J.of_u64 n)
    unsigned_fixed64 : (n : ℕ) → IsU64 n → Fits "fixed64" (J.of_u64 n)
    signed_fixed32 : (n : ℕ) → IsU64 n → as_i32 n ≡ n → Fits "sfixed32" (J.of_i64 n)
    signed_fixed64 : (n : ℕ) → IsU64 n → Fits "sfixed64" (J.of_i64 n)
    double : (b : ℕ) → IsFinite b → Fits "double" (J.of_f64 b)
    -- an f32, widened
    float :
        (b : ℕ) → b < 2 ^ 32 → IsFinite (J.f32_as_f64 b) → Fits "float" (J.of_f64 (J.f32_as_f64 b))
    text :
        (s : List ℕ)
        → All IsByte s
        → is_utf8 s ≡ true
        → length s < 2 ^ 63
        → Fits "string" (J.of_str s)
    binary :
        (bs : List ℕ)
        → All IsByte bs
        → length bs < 2 ^ 63
        → Fits "bytes" (J.of_str (Base64.encode bs))

  -- A value is written as bytes, which are read as a raw value, which stands for the value.
  pub record Carries (message : J.Value → Result (List ℕ)) (nested : List ℕ → Result J.Value)
      (t : String) (v : J.Value) : Type 0 where
    pub bytes : List ℕ
    pub raw : WireValue
    pub written : value_bytes J message t v ≡ ok bytes
    pub bytes-IsByte : All IsByte bytes
    pub read : decode_wire_value bytes (wire_type_for t) ≡ ok (raw, length bytes)
    pub converted : wire_value_to_json J nested raw t ≡ ok v

  module _ (message : J.Value → Result (List ℕ)) (nested : List ℕ → Result J.Value) (t : String)
      (v : J.Value) where
    Carries-varint :
        (n : ℕ)
        → wire_type_for t ≡ 0
        → IsU64 n
        → json_to_varint J v t ≡ ok n
        → wire_value_to_json J nested (varint n) t ≡ ok v
        → Carries message nested t v
    unfolding value_bytes decode_wire_value
    Carries-varint n w h e back =
        let (bs, enc) = Varint-exists n in
        let same : encode_varint n ≡ bs = encode_varint-Varint n bs enc in
        let got = decode_varint_all n bs enc h in
        record {
          bytes = bs;
          raw = varint n;
          written = rw (w, e, same) refl;
          bytes-IsByte = Varint-IsByte enc;
          read = rw (w, got) refl;
          converted = back;
        }

    Carries-fixed64 :
        (n : ℕ)
        → wire_type_for t ≡ 1
        → fixed64_bytes J t v ≡ ok (le_bytes_8 n)
        → wire_value_to_json J nested (fixed64 (le_bytes_8 n)) t ≡ ok v
        → Carries message nested t v
    unfolding value_bytes decode_wire_value
    Carries-fixed64 n w e back = record {
      bytes = le_bytes_8 n;
      raw = fixed64 (le_bytes_8 n);
      written = rw (w, e) refl;
      bytes-IsByte =
          All-append IsByte (le_bytes_4 n) (le_bytes_4 (n / 2 ^ 32)) (le_bytes_4-IsByte n)
            (le_bytes_4-IsByte (n / 2 ^ 32));
      read = rw w refl;
      converted = back;
    }

    Carries-fixed32 :
        (n : ℕ)
        → wire_type_for t ≡ 5
        → fixed32_bytes J t v ≡ ok (le_bytes_4 n)
        → wire_value_to_json J nested (fixed32 (le_bytes_4 n)) t ≡ ok v
        → Carries message nested t v
    unfolding value_bytes decode_wire_value
    Carries-fixed32 n w e back = record {
      bytes = le_bytes_4 n;
      raw = fixed32 (le_bytes_4 n);
      written = rw (w, e) refl;
      bytes-IsByte = le_bytes_4-IsByte n;
      read = rw w refl;
      converted = back;
    }

    Carries-delimited :
        (s : List ℕ)
        → wire_type_for t ≡ 2
        → All IsByte s
        → length s < 2 ^ 63
        → delimited_bytes J message t v ≡ ok (with_length s)
        → wire_value_to_json J nested (length_delimited s) t ≡ ok v
        → Carries message nested t v
    unfolding value_bytes decode_wire_value
    Carries-delimited s w hs small e back =
        let (hdr, enc) = Varint-exists (length s) in
        let same : with_length s ≡ hdr ++ s =
          ap (λ l. l ++ s) (encode_varint-Varint (length s) hdr enc) in
        let sizes = length-append hdr s in
        let ten = Varint-length_u64 enc (omega arith) in
        record {
          bytes = hdr ++ s;
          raw = length_delimited s;
          written = rw (w, e, same) refl;
          bytes-IsByte = All-append IsByte hdr s (Varint-IsByte enc) hs;
          read = rw w (decode_wire_value_delimited hdr s enc hs (omega arith));
          converted = back;
        }

  module _ (message : J.Value → Result (List ℕ)) (nested : List ℕ → Result J.Value) where
    u64_read : (n : ℕ) → IsU64 n → json_as_u64 J (J.of_u64 n) ≡ ok n
    unfolding json_as_u64
    u64_read n h = rw (J.as_u64-of_u64 n h) refl

    i64_read : (n : ℕ) → IsU64 n → json_as_i64 J (J.of_i64 n) ≡ ok n
    unfolding json_as_i64
    i64_read n h = rw (J.as_i64-of_i64 n h) refl

    by_bool : (b : Bool) → Carries message nested "bool" (J.of_bool b)
    unfolding json_to_varint wire_value_to_json wire_type_for
    by_bool true =
        Carries-varint message nested "bool" _ 1 refl (omega arith)
          (rw (J.as_bool-of_bool true) refl) refl
    by_bool false =
        Carries-varint message nested "bool" _ 0 refl (omega arith)
          (rw (J.as_bool-of_bool false) refl) refl

    -- Every value of a scalar type is carried, whatever nested messages do.
    pub carries : {t : String} {v : J.Value} → Fits t v → Carries message nested t v
    unfolding json_to_varint wire_value_to_json wire_type_for
    carries (boolean b) = by_bool b
    carries (uint32 n h) =
        Carries-varint message nested "uint32" _ n refl (omega arith) (u64_read n (omega arith))
          refl
    carries (uint64 n h) = Carries-varint message nested "uint64" _ n refl h (u64_read n h) refl
    carries (enumeration n h) = Carries-varint message nested "enum" _ n refl h (u64_read n h) refl
    carries (int32 n h e) =
        Carries-varint message nested "int32" _ n refl h (i64_read n h)
          (ap (λ x. ok (J.of_i64 x)) e)
    carries (int64 n h) = Carries-varint message nested "int64" _ n refl h (i64_read n h) refl
    carries (sint32 n h e) =
        let back : as_i32 (zigzag_decode (zigzag_encode n)) ≡ n =
          ap (λ x. as_i32 x) (zigzag_decode-zigzag_encode n h) ∙ e in
        Carries-varint message nested "sint32" _ (zigzag_encode n) refl (zigzag_encode-IsU64 n h)
          (rw (i64_read n h) (ap (λ x. ok (zigzag_encode x)) e)) (ap (λ x. ok (J.of_i64 x)) back)
    carries (sint64 n h) =
        Carries-varint message nested "sint64" _ (zigzag_encode n) refl (zigzag_encode-IsU64 n h)
          (rw (i64_read n h) refl) (ap (λ x. ok (J.of_i64 x)) (zigzag_decode-zigzag_encode n h))
    carries (unsigned_fixed32 n h) =
        Carries-fixed32 message nested "fixed32" _ n refl (rw (u64_read n (omega arith)) refl)
          (ap (λ x. ok (J.of_u64 x)) (from_le_bytes-le_bytes_4 n ∙ omega arith))
    carries (unsigned_fixed64 n h) =
        Carries-fixed64 message nested "fixed64" _ n refl (rw (u64_read n h) refl)
          (ap (λ x. ok (J.of_u64 x)) (from_le_bytes-le_bytes_8 n h))
    carries (signed_fixed32 n h e) =
        let back : as_i32 (from_le_bytes (le_bytes_4 n)) ≡ n =
          ap (λ x. as_i32 x) (from_le_bytes-le_bytes_4 n) ∙ as_i32_low n ∙ e in
        Carries-fixed32 message nested "sfixed32" _ n refl (rw (i64_read n h) refl)
          (ap (λ x. ok (J.of_i64 x)) back)
    carries (signed_fixed64 n h) =
        Carries-fixed64 message nested "sfixed64" _ n refl (rw (i64_read n h) refl)
          (ap (λ x. ok (J.of_i64 x)) (from_le_bytes-le_bytes_8 n h))
    carries (double b (h, f)) =
        Carries-fixed64 message nested "double" _ b refl (rw (J.as_f64-of_f64 b (h, f)) refl)
          (ap (λ x. ok (J.of_f64 x)) (from_le_bytes-le_bytes_8 b h))
    carries (float b h f) =
        Carries-fixed32 message nested "float" _ b refl
          (rw (J.as_f64-of_f64 (J.f32_as_f64 b) f, J.f64_as_f32-f32_as_f64 b h f) refl)
          (ap (λ x. ok (J.of_f64 (J.f32_as_f64 x))) (from_le_bytes-le_bytes_4 b ∙ omega arith))
    carries (text s hs utf8 small) =
        Carries-delimited message nested "string" _ s refl hs small (rw (J.as_str-of_str s) refl)
          (rw utf8 refl)
    carries (binary bs hb small) =
        Carries-delimited message nested "bytes" _ bs refl hb small
          (rw (J.as_str-of_str (Base64.encode bs)) (rw (Base64RoundTrip.decode-encode bs hb) refl))
          refl

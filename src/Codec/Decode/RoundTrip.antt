-- ===== src/Codec/Decode/RoundTrip.antt =====
-- Decoding what was encoded, and what a decoder returns on any input.
use typeway.Base.{
  ℕ, ◌+◌, ◌*◌, ◌/◌, ◌%◌, ◌^◌, ◌<◌, ◌≤◌, ◌≡◌, sym, ap, ap₂, ◌∙◌, List, [], ◌∷◌, ◌++◌, some,
  map-eq-some, ltb, length, All, All-append, if◌then◌else◌, arith, append-nil,
}
use typeway.Base.Bits.{pow_seven}
use typeway.Codec.Buffer.{Buf}
use typeway.Codec.Varint.{
  IsByte, IsU64, Varint, last, more, Varint-exists, Varint-IsByte, Varint-length_pos,
  Varint-length_u64,
}
use typeway.Codec.Encode.{tw_encode_varint, tw_varint_len}
use typeway.Codec.Encode.Writes.{tw_encode_varint-Varint}
use typeway.Codec.Encode.Length.{tw_varint_len-Varint}
use typeway.Codec.Decode.{ok, err, unexpected_eof, varint_too_long, tw_decode_varint}
use typeway.Codec.Decode.Reference.{read_groups, tw_decode_varint-read_groups}
use native.Mathlib.Nat.{div-add-mod}
use mathlib.Core.Option

next_group : (v k : ℕ) → v % 128 * 2 ^ (7 * k) + v / 128 * 2 ^ (7 * (k + 1)) ≡ v * 2 ^ (7 * k)
next_group v k =
    let e : 2 ^ (7 * (k + 1)) ≡ 128 * 2 ^ (7 * k) =
      ap (λ t. 2 ^ t) (omega arith) ∙ pow_seven (7 * k) in
    omega
      (arith, ap (λ (t : ℕ). v / 128 * t) e, ap (λ (t : ℕ). t * 2 ^ (7 * k)) (div-add-mod v 128))

read_groups-Varint :
    {v : ℕ} {bs : List ℕ}
    → Varint v bs
    → (rest : List ℕ) (k acc : ℕ) → k + length bs ≤ 10
    → read_groups (bs ++ rest) k acc ≡ ok ((acc + v * 2 ^ (7 * k)) % 2 ^ 64, k + length bs)
unfolding read_groups
read_groups-Varint (last v h) rest k acc room = ground (arith)
read_groups-Varint (more v bs h enc) rest k acc room = ground (
  arith,
  next_group v k,
  Varint-length_pos enc,
  read_groups-Varint enc rest (k + 1) (acc + (v % 128 + 128) % 128 * 2 ^ (7 * k)),
)

-- The decoder reads back the u64 whose encoding stands in front, says how many bytes that took, and
-- does not look at what follows.
pub tw_decode_varint-Varint :
    (v : ℕ) (bs rest : List ℕ)
    → Varint v bs
    → IsU64 v
    → All IsByte rest
    → tw_decode_varint (bs ++ rest) ≡ ok (v, length bs)
tw_decode_varint-Varint v bs rest enc h hr =
    tw_decode_varint-read_groups (bs ++ rest) (All-append IsByte bs rest (Varint-IsByte enc) hr)
    ∙ read_groups-Varint enc rest 0 0 (omega (arith, Varint-length_u64 enc h))
    ∙ ap ok (ap₂ (λ x y. (x, y)) (omega arith) (omega arith))

-- A u64 encoded into an empty buffer is decoded to itself, in as many bytes as `tw_varint_len` says.
pub tw_decode_varint-tw_encode_varint :
    (v cap : ℕ)
    → IsU64 v
    → Option.map
        (λ b. tw_decode_varint b.bytes)
        (tw_encode_varint (record { bytes = []; cap = cap }) v)
      ≡ some (ok (v, tw_varint_len v))
tw_decode_varint-tw_encode_varint v cap h =
    let (bs, enc) = Varint-exists v in
    let empty : Buf = record { bytes = []; cap = cap } in
    map-eq-some (tw_encode_varint empty v) (λ b. b.bytes) tw_decode_varint
      (tw_encode_varint-Varint v bs empty enc h)
    ∙ ap some (
        ap tw_decode_varint (sym (append-nil bs))
        ∙ tw_decode_varint-Varint v bs [] enc h tt
        ∙ ap (λ n. ok (v, n)) (sym (tw_varint_len-Varint v bs enc h)))

read_groups_bounds :
    (bytes : List ℕ) (k acc v n : ℕ)
    → read_groups bytes k acc ≡ ok (v, n)
    → IsU64 v × (k < n) × (n ≤ 10) × (n ≤ k + length bytes)
unfolding read_groups
read_groups_bounds [] k acc v n e = cc
read_groups_bounds (b ∷ rest) k acc v n e =
    ground (arith, read_groups_bounds rest (k + 1) (acc + b % 128 * 2 ^ (7 * k)) v n)

-- Whatever the input, a decoded value is a u64, and from 1 to 10 bytes of the input were consumed.
pub tw_decode_varint_bounds :
    (bytes : List ℕ) (v n : ℕ)
    → All IsByte bytes
    → tw_decode_varint bytes ≡ ok (v, n)
    → IsU64 v × (0 < n) × (n ≤ 10) × (n ≤ length bytes)
tw_decode_varint_bounds bytes v n h e =
    omega (arith, read_groups_bounds bytes 0 0 v n (sym (tw_decode_varint-read_groups bytes h) ∙ e))

-- A byte with the top bit, which announces another byte.
abbrev pub Continues : ℕ → Type 0
Continues b = (128 ≤ b) × (b < 256)

read_groups_unending :
    (bytes : List ℕ) (k acc : ℕ)
    → All Continues bytes
    → k ≤ 10
    → read_groups bytes k acc
      ≡ (if ltb 10 (k + length bytes) then err varint_too_long else err unexpected_eof)
unfolding read_groups
read_groups_unending [] k acc h hk = ground arith
read_groups_unending (b ∷ bytes) k acc ((lo, hi), h) hk =
    ground (arith, read_groups_unending bytes (k + 1) (acc + b % 128 * 2 ^ (7 * k)) h)

Continues-IsByte : (bytes : List ℕ) → All Continues bytes → All IsByte bytes
Continues-IsByte [] h = tt
Continues-IsByte (b ∷ bytes) (p, h) = (p.1, Continues-IsByte bytes h)

-- Input without a last byte is refused: as too long from the eleventh byte on, and as ending early
-- before that.
pub tw_decode_varint_unending :
    (bytes : List ℕ)
    → All Continues bytes
    → tw_decode_varint bytes
      ≡ (if ltb 10 (length bytes) then err varint_too_long else err unexpected_eof)
tw_decode_varint_unending bytes h =
    tw_decode_varint-read_groups bytes (Continues-IsByte bytes h)
    ∙ read_groups_unending bytes 0 0 h (omega arith)
    ∙ ap (λ (n : ℕ). if ltb 10 n then err varint_too_long else err unexpected_eof) (omega arith)

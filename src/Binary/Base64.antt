-- ===== src/Binary/Base64.antt =====
-- The base64 coder that proto_codec.rs has for `bytes` fields. A text is the list of its bytes in UTF-8;
-- those of a character beyond ASCII are refused as the character is.
pub mod RoundTrip
use Prim.Native.String.{String}
use Prim.Native.Char.{code}
use typeway.Base.{
  ℕ, ◌+◌, ◌-◌, ◌*◌, ◌/◌, ◌%◌, ◌^◌, Bool, ◌&&◌, List, [], ◌∷◌, ◌++◌, Option, none, some, ltb, leb,
  ◌==◌, get_elem?, if◌then◌else◌, bit_and, bit_or,
}

-- The code points of a literal.
abbrev pub codes : String → List ℕ
codes String.[] = []
codes (String.◌∷◌ c s) = code c ∷ codes s

abbrev chars : List ℕ
chars = codes "ABCDEFGHIJKLMNOPQRSTUVWXYZabcdefghijklmnopqrstuvwxyz0123456789+/"

-- `CHARS[(x & 0x3F) as usize]`; the index is below 64.
unfoldable pub char_at : ℕ → ℕ
char_at x = elim (get_elem? chars (bit_and x 0x3F)) [ some c ↦ c | none ↦ 0 ]

-- `(b0 << 16) | (b1 << 8) | b2`
abbrev pub triple : ℕ → ℕ → ℕ → ℕ
triple b0 b1 b2 = bit_or (bit_or (b0 * 2 ^ 16) (b1 * 2 ^ 8)) b2

unfoldable pub encode : List ℕ → List ℕ
unfolding char_at
encode [] = []
encode (b0 ∷ []) =
    let t = triple b0 0 0 in char_at (t / 2 ^ 18) ∷ char_at (t / 2 ^ 12) ∷ b'=' ∷ b'=' ∷ []
encode (b0 ∷ b1 ∷ []) =
    let t = triple b0 b1 0 in
    char_at (t / 2 ^ 18) ∷ char_at (t / 2 ^ 12) ∷ char_at (t / 2 ^ 6) ∷ b'=' ∷ []
encode (b0 ∷ b1 ∷ b2 ∷ rest) =
    let t = triple b0 b1 b2 in
    char_at (t / 2 ^ 18) ∷ char_at (t / 2 ^ 12) ∷ char_at (t / 2 ^ 6) ∷ char_at t ∷ encode rest

-- The number of a character; `none` is a `DecodeError`.
unfoldable pub value_of : ℕ → Option ℕ
value_of c =
    if leb b'A' c && leb c b'Z'
    then some (c - b'A')
    else if leb b'a' c && leb c b'z'
    then some (c - b'a' + 26)
    else if leb b'0' c && leb c b'9'
    then some (c - b'0' + 52)
    else if c == b'+'
    then some 62
    else if c == b'/'
    then some 63
    else none

-- `trim_end_matches('=')`
unfoldable pub trim_pad : List ℕ → List ℕ
trim_pad [] = []
trim_pad (c ∷ text) = elim (trim_pad text) [
  | [] ↦ if c == b'=' then [] else c ∷ []
  | d ∷ kept ↦ c ∷ d ∷ kept
]

-- The loop over the characters, with `buf` and `bits` as they are before one.
unfoldable pub decode_chars : List ℕ → ℕ → ℕ → List ℕ → Option (List ℕ)
unfolding value_of
decode_chars [] buf bits out = some out
decode_chars (c ∷ text) buf bits out = elim (value_of c) [
  | none ↦ none
  | some val ↦
      let buf' = bit_or (buf * 2 ^ 6 % 2 ^ 32) val in
      let bits' = bits + 6 in
      let whole =
        decode_chars text (bit_and buf' (2 ^ (bits' - 8) - 1)) (bits' - 8)
          (out ++ (buf' / 2 ^ (bits' - 8) % 256) ∷ []) in
      let part = decode_chars text buf' bits' out in if leb 8 bits' then whole else part
]

unfoldable pub decode : List ℕ → Option (List ℕ)
unfolding trim_pad decode_chars
decode input = decode_chars (trim_pad input) 0 0 []

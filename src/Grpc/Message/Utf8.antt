-- ===== src/Grpc/Message/Utf8.antt =====
-- The check of `String::from_utf8`: the well-formed byte sequences of the Unicode standard.
use typeway.Base.{
  ℕ, zero, suc, Bool, true, false, ◌&&◌, List, [], ◌∷◌, Option, none, some, leb, ◌==◌,
  if◌then◌else◌,
}

-- How many bytes follow a first byte, and the range of the next one.
abbrev pub lead : ℕ → Option (ℕ × ℕ × ℕ)
lead b =
    if leb b 0x7F
    then some (0, 0x80, 0xBF)
    else if leb 0xC2 b && leb b 0xDF
    then some (1, 0x80, 0xBF)
    else if b == 0xE0
    then some (2, 0xA0, 0xBF)
    else if b == 0xED
    then some (2, 0x80, 0x9F)
    else if leb 0xE1 b && leb b 0xEF
    then some (2, 0x80, 0xBF)
    else if b == 0xF0
    then some (3, 0x90, 0xBF)
    else if leb 0xF1 b && leb b 0xF3
    then some (3, 0x80, 0xBF)
    else if b == 0xF4
    then some (3, 0x80, 0x8F)
    else none

-- `n` more bytes belong to the character at hand; the next one lies between `lo` and `hi`.
utf8_from : ℕ → ℕ → ℕ → List ℕ → Bool
utf8_from lo hi zero [] = true
utf8_from lo hi (suc n) [] = false
utf8_from lo hi (suc n) (b ∷ bytes) = (leb lo b && leb b hi) && utf8_from 0x80 0xBF n bytes
utf8_from lo hi zero (b ∷ bytes) = elim (lead b) [
  | none ↦ false
  | some (n, lo', hi') ↦ utf8_from lo' hi' n bytes
]

unfoldable pub is_utf8 : List ℕ → Bool
unfolding utf8_from
is_utf8 bytes = utf8_from 0x80 0xBF 0 bytes

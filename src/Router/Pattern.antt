-- ===== src/Router/Pattern.antt =====
-- Patterns and paths of router.rs, byte by byte.
pub mod Renders
use typeway.Base.{
  ℕ, zero, suc, ◌+◌, ◌*◌, ◌/◌, ◌%◌, ◌<◌, Bool, true, false, ◌&&◌, List, [], ◌∷◌, ◌++◌, Option, none,
  some, length, ltb, ◌==◌, if◌then◌else◌, dite, dec_le, arith, ◌≤◌,
}
use typeway.Base.Order.{lt_wf}
use mathlib.Core.WellFounded.{Acc}

-- Equality of two texts.
abbrev pub bytes_eq : List ℕ → List ℕ → Bool
bytes_eq [] [] = true
bytes_eq (a ∷ s) (b ∷ t) = a == b && bytes_eq s t
bytes_eq _ _ = false

-- `path.split('/').filter(|s| !s.is_empty())`, with the current part in `part`.
abbrev pub close_part : List ℕ → List (List ℕ) → List (List ℕ)
close_part [] rest = rest
close_part (c ∷ part) rest = (c ∷ part) ∷ rest

unfoldable pub segments_from : List ℕ → List ℕ → List (List ℕ)
segments_from part [] = close_part part []
segments_from part (c ∷ path) =
    let cut = close_part part (segments_from [] path) in
    let longer = segments_from (part ++ c ∷ []) path in if c == b'/' then cut else longer

unfoldable pub segments : List ℕ → List (List ℕ)
unfolding segments_from
segments path = segments_from [] path

-- `out.push(b as char)`: the code point with the number of the byte, in UTF-8.
abbrev pub push_char : ℕ → List ℕ
push_char b = if ltb b 0x80 then b ∷ [] else (0xC0 + b / 64) ∷ (0x80 + b % 64) ∷ []

pub digit_lt : (n : ℕ) → 10 ≤ n → n / 10 < n
digit_lt n h = omega arith

-- A number in decimal.
unfoldable pub show_loop : (n : ℕ) → Acc ◌<◌ n → List ℕ
show_loop n (Acc.intro _ smaller) =
    dite (dec_le 10 n)
      (λ h. show_loop (n / 10) (smaller (n / 10) (digit_lt n h)) ++ (n % 10 + b'0') ∷ [])
      (λ _. (n + b'0') ∷ [])

unfoldable pub show : ℕ → List ℕ
unfolding show_loop lt_wf dec_le
show n = show_loop n (lt_wf.apply n)

-- The bytes before the first `}`, and those behind it.
unfoldable pub find_close : List ℕ → Option (List ℕ × List ℕ)
find_close [] = none
find_close (b ∷ rest) =
    let later = find_close rest in
    if b == b'}'
    then some ([], rest)
    else elim later [ none ↦ none | some (inner, tail) ↦ some (b ∷ inner, tail) ]

-- The capture that is written: an empty one is numbered.
abbrev pub capture : List ℕ → ℕ → List ℕ
capture [] counter = (b'{' ∷ b'p' ∷ show counter) ++ b'}' ∷ []
capture (b ∷ inner) counter = (b'{' ∷ b ∷ inner) ++ b'}' ∷ []

abbrev pub next_counter : List ℕ → ℕ → ℕ
next_counter [] counter = counter + 1
next_counter (b ∷ inner) counter = counter

-- The loop of `to_matchit_pattern`, over the bytes from `i` on. It ends for lack of fuel on no input:
-- each round takes a byte at least.
unfoldable pub convert_loop : ℕ → List ℕ → ℕ → List ℕ
unfolding find_close show
convert_loop zero pat counter = []
convert_loop (suc fuel) [] counter = []
convert_loop (suc fuel) (b ∷ pat) counter =
    let plain = push_char b ++ convert_loop fuel pat counter in
    let braced : List ℕ = elim (find_close pat) [
      | some (inner, tail) ↦
          capture inner counter ++ convert_loop fuel tail (next_counter inner counter)
      | none ↦ b ∷ pat
    ] in
    if b == b'{' then braced else plain

unfoldable pub to_matchit_pattern : List ℕ → List ℕ
unfolding convert_loop
to_matchit_pattern pat = convert_loop (suc (length pat)) pat 0

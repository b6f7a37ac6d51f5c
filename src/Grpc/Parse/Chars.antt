-- ===== src/Grpc/Parse/Chars.antt =====
-- The operations on `&str` that proto_parse.rs uses. A slice is the list of its characters.
use Prim.Native.Char.{Char, code}
use Prim.Native.String.{String}
use mathlib.Core.List.{reverse}
use typeway.Base.{
  ℕ, zero, suc, ◌^◌, Bool, true, false, ◌&&◌, List, [], ◌∷◌, map, Option, none, some, ltb, ◌==◌,
  length, drop, if◌then◌else◌,
}
use typeway.Base.Options.{◌>>=◌}
use typeway.Grpc.Timeout.{is_whitespace, parse_u64}

abbrev pub Text : Type 0
Text = List Char

abbrev pub text : String → Text
text String.[] = []
text (String.◌∷◌ c s) = c ∷ text s

-- `to_string`
abbrev pub to_string : Text → String
to_string [] = ""
to_string (c ∷ t) = String.◌∷◌ c (to_string t)

abbrev pub same : Char → Char → Bool
same c d = code c == code d

abbrev pub text_eq : Text → Text → Bool
text_eq [] [] = true
text_eq [] (d ∷ u) = false
text_eq (c ∷ t) [] = false
text_eq (c ∷ t) (d ∷ u) = same c d && text_eq t u

abbrev pub is_empty {ℓ} : {A : Type ℓ} → List A → Bool
is_empty [] = true
is_empty (c ∷ t) = false

abbrev pub starts_with : Text → Text → Bool
starts_with [] t = true
starts_with (p ∷ pattern) [] = false
starts_with (p ∷ pattern) (c ∷ t) = same p c && starts_with pattern t

unfoldable pub trim_start : Text → Text
trim_start [] = []
trim_start (c ∷ t) = if is_whitespace (code c) then trim_start t else c ∷ t

unfoldable pub trim : Text → Text
unfolding trim_start
trim t = reverse (trim_start (reverse (trim_start t)))

-- `trim_start_matches` of a text: it is taken off as often as it stands there.
unfoldable pub trim_start_loop : ℕ → Text → Text → Text
trim_start_loop zero pattern t = t
trim_start_loop (suc fuel) pattern t =
    let rest = trim_start_loop fuel pattern (drop (length pattern) t) in
    if starts_with pattern t then rest else t

unfoldable pub trim_start_matches : Text → Text → Text
unfolding trim_start_loop
trim_start_matches pattern t = trim_start_loop (length t) pattern t

-- `trim_start_matches` and `trim_end_matches` of a character
unfoldable pub trim_start_char : ℕ → Text → Text
trim_start_char n [] = []
trim_start_char n (c ∷ t) = if code c == n then trim_start_char n t else c ∷ t

unfoldable pub trim_end_char : ℕ → Text → Text
unfolding trim_start_char
trim_end_char n t = reverse (trim_start_char n (reverse t))

-- `find(c)`, with what stands before the character and behind it
unfoldable pub split_once : ℕ → Text → Option (Text × Text)
split_once n [] = none
split_once n (c ∷ t) =
    if code c == n then some ([], t) else (split_once n t >>= λ r. some (c ∷ r.0, r.1))

-- What stands behind the first occurrence of a text.
unfoldable pub after : Text → Text → Option Text
after pattern [] = if is_empty pattern then some [] else none
after pattern (c ∷ t) =
    if starts_with pattern (c ∷ t) then some (drop (length pattern) (c ∷ t)) else after pattern t

-- `split("//").next()`
unfoldable pub before_comment : Text → Text
before_comment [] = []
before_comment (c ∷ t) = if starts_with (text "//") (c ∷ t) then [] else c ∷ before_comment t

abbrev pub push_part : Char → List Text → List Text
push_part c [] = (c ∷ []) ∷ []
push_part c (part ∷ parts) = (c ∷ part) ∷ parts

-- `split(c)`
unfoldable pub split : ℕ → Text → List Text
split n [] = [] ∷ []
split n (c ∷ t) = if code c == n then [] ∷ split n t else push_part c (split n t)

abbrev pub split_blank : Text → List Text
split_blank [] = [] ∷ []
split_blank (c ∷ t) =
    if is_whitespace (code c) then [] ∷ split_blank t else push_part c (split_blank t)

abbrev pub drop_empty : List Text → List Text
drop_empty [] = []
drop_empty (t ∷ ts) = if is_empty t then drop_empty ts else t ∷ drop_empty ts

unfoldable pub split_whitespace : Text → List Text
split_whitespace t = drop_empty (split_blank t)

-- A line loses the `\r` before its end.
abbrev strip_return : Text → Text
strip_return [] = []
strip_return (c ∷ []) = if code c == 13 then [] else c ∷ []
strip_return (c ∷ d ∷ t) = c ∷ strip_return (d ∷ t)

-- Each part but the last ends in a line feed; behind it there is no line if it is empty.
abbrev end_lines : List Text → List Text
end_lines [] = []
end_lines (t ∷ []) = if is_empty t then [] else t ∷ []
end_lines (t ∷ u ∷ ts) = strip_return t ∷ end_lines (u ∷ ts)

unfoldable pub lines : Text → List Text
unfolding split
lines t = end_lines (split 10 t)

-- `parse::<u32>`
unfoldable pub parse_u32 : Text → Option ℕ
unfolding parse_u64
parse_u32 t = parse_u64 (map code t) >>= λ n. if ltb n (2 ^ 32) then some n else none

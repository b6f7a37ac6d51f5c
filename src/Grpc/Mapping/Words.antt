-- ===== src/Grpc/Mapping/Words.antt =====
-- Words with single blanks between them, as the line-based parser of proto_parse.rs takes them apart.
use Prim.Native.Char.{Char, code}
use mathlib.Core.List.{reverse, reverse-append, reverse-reverse}
use typeway.Base.{
  ℕ, ◌≡◌, refl, sym, ap, ◌∙◌, Bool, true, false, not, ◌&&◌, List, [], ◌∷◌, ◌++◌, ◌==◌, All,
  All-append, append_assoc, arith,
}
use typeway.Grpc.Timeout.{is_whitespace}
use typeway.Grpc.Parse.Chars.{
  Text, text, trim_start, trim, trim_start_char, trim_end_char, before_comment, split_blank,
  drop_empty, split_whitespace,
}

-- A character that no parser takes for the end of a word, of a line or of a field.
abbrev pub word_char : ℕ → Bool
word_char n = not (is_whitespace n) && (not (n == b'/') && (not (n == b';') && not (n == b'<')))

abbrev pub IsWordChar : Char → Type 0
IsWordChar c = word_char (code c) ≡ true

-- A word has a character at least.
abbrev pub IsWord : Text → Type 0
IsWord [] = ⊥
IsWord (c ∷ t) = IsWordChar c × All IsWordChar t

abbrev pub blank : Text
blank = text " "

abbrev pub spaced : List Text → Text
spaced [] = []
spaced (t ∷ []) = t
spaced (t ∷ u ∷ ts) = t ++ (blank ++ spaced (u ∷ ts))

and_parts :
    (a b c d : Bool)
    → (not a && (not b && (not c && not d))) ≡ true
    → (a ≡ false) × (b ≡ false) × (c ≡ false) × (d ≡ false)
and_parts false false false false h = (refl, refl, refl, refl)
and_parts true b c d h = cc
and_parts false true c d h = cc
and_parts false false true d h = cc
and_parts false false false true h = cc

pub word_parts :
    (c : Char)
    → IsWordChar c
    → (is_whitespace (code c) ≡ false)
      × ((code c == b'/') ≡ false)
      × ((code c == b';') ≡ false)
      × ((code c == b'<') ≡ false)
word_parts c h =
    and_parts (is_whitespace (code c)) (code c == b'/') (code c == b';') (code c == b'<') h

split_blank_word : (t : Text) → All IsWordChar t → split_blank t ≡ t ∷ []
split_blank_word [] h = refl
split_blank_word (c ∷ t) (hc, h) =
    let (solid, _, _, _) = word_parts c hc in rw (solid, split_blank_word t h) refl

split_blank_spaced :
    (t u : Text) → All IsWordChar t → split_blank (t ++ (blank ++ u)) ≡ t ∷ split_blank u
split_blank_spaced [] u h = refl
split_blank_spaced (c ∷ t) u (hc, h) =
    let (solid, _, _, _) = word_parts c hc in rw (solid, split_blank_spaced t u h) refl

word-All : (t : Text) → IsWord t → All IsWordChar t
word-All [] h = tt
word-All (c ∷ t) h = h

drop_empty_word : (t : Text) (ts : List Text) → IsWord t → drop_empty (t ∷ ts) ≡ t ∷ drop_empty ts
drop_empty_word [] ts h = elim h [ ]
drop_empty_word (c ∷ t) ts h = refl

pub split_whitespace-spaced : (ts : List Text) → All IsWord ts → split_whitespace (spaced ts) ≡ ts
unfolding split_whitespace
split_whitespace-spaced [] h = refl
split_whitespace-spaced (t ∷ []) (ht, h) =
    rw (split_blank_word t (word-All t ht)) (drop_empty_word t [] ht)
split_whitespace-spaced (t ∷ u ∷ ts) (ht, h) =
    rw (split_blank_spaced t (spaced (u ∷ ts)) (word-All t ht)) (
      drop_empty_word t (split_blank (spaced (u ∷ ts))) ht
      ∙ ap (λ x. t ∷ x) (split_whitespace-spaced (u ∷ ts) h))

abbrev pub NoSlash : Char → Type 0
NoSlash c = (code c == b'/') ≡ false

word-NoSlash : (t : Text) → All IsWordChar t → All NoSlash t
word-NoSlash [] h = tt
word-NoSlash (c ∷ t) (hc, h) = ((word_parts c hc).1, word-NoSlash t h)

pub spaced-NoSlash : (ts : List Text) → All IsWord ts → All NoSlash (spaced ts)
spaced-NoSlash [] h = tt
spaced-NoSlash (t ∷ []) (ht, h) = word-NoSlash t (word-All t ht)
spaced-NoSlash (t ∷ u ∷ ts) (ht, h) =
    All-append NoSlash t (blank ++ spaced (u ∷ ts)) (word-NoSlash t (word-All t ht))
      (refl, spaced-NoSlash (u ∷ ts) h)

flip : (n : ℕ) → (n == b'/') ≡ false → (b'/' == n) ≡ false
flip n h = ground arith

pub before_comment_lem : (t : Text) → All NoSlash t → before_comment t ≡ t
unfolding before_comment
before_comment_lem [] h = refl
before_comment_lem (c ∷ t) (hc, h) = rw (flip (code c) hc, before_comment_lem t h) refl

-- The last character of a line of words.
abbrev pub Ends : Text → Type 0
Ends t = (front : Text) × (d : Char) × (t ≡ front ++ d ∷ []) × IsWordChar d

word-Ends : (c : Char) (t : Text) → IsWordChar c → All IsWordChar t → Ends (c ∷ t)
word-Ends c [] hc h = ([], c, refl, hc)
word-Ends c (d ∷ t) hc (hd, h) =
    let (front, e, split, he) = word-Ends d t hd h in (c ∷ front, e, ap (λ x. c ∷ x) split, he)

pub spaced-Ends : (t : Text) (ts : List Text) → IsWord t → All IsWord ts → Ends (spaced (t ∷ ts))
spaced-Ends [] ts ht h = elim ht [ ]
spaced-Ends (c ∷ t) [] (hc, ht) h = word-Ends c t hc ht
spaced-Ends (c ∷ t) (u ∷ ts) ht (hu, h) =
    let (front, d, split, hd) = spaced-Ends u ts hu h in
    (
      (c ∷ t) ++ (blank ++ front),
      d,
      ap (λ x. (c ∷ t) ++ (blank ++ x)) split
          ∙ sym (append_assoc (c ∷ t) (blank ++ front) (d ∷ [])),
      hd,
    )

-- A text that begins and ends with characters of words is not trimmed.
module _ (c : Char) (t front : Text) (d : Char) (split : c ∷ t ≡ front ++ d ∷ [])
    (hc : IsWordChar c) (hd : IsWordChar d) where
  reversed : reverse (c ∷ t) ≡ d ∷ reverse front
  reversed = ap reverse split ∙ reverse-append front (d ∷ [])

  start_solid : trim_start (c ∷ t) ≡ c ∷ t
  unfolding trim_start
  start_solid = rw ((word_parts c hc).0) refl

  end_solid : trim_start (d ∷ reverse front) ≡ d ∷ reverse front
  unfolding trim_start
  end_solid = rw ((word_parts d hd).0) refl

  back : reverse (d ∷ reverse front) ≡ c ∷ t
  back = ap reverse (sym reversed) ∙ reverse-reverse (c ∷ t)

  pub trim_solid : trim (c ∷ t) ≡ c ∷ t
  unfolding trim
  trim_solid = rw start_solid (rw reversed (rw end_solid back))

  with_semicolon : reverse ((c ∷ t) ++ text ";") ≡ text ";" ++ (d ∷ reverse front)
  with_semicolon = reverse-append (c ∷ t) (text ";") ∙ ap (λ x. text ";" ++ x) reversed

  semicolon_back : reverse (text ";" ++ (d ∷ reverse front)) ≡ (c ∷ t) ++ text ";"
  semicolon_back = ap reverse (sym with_semicolon) ∙ reverse-reverse ((c ∷ t) ++ text ";")

  pub trim_semicolon : trim ((c ∷ t) ++ text ";") ≡ (c ∷ t) ++ text ";"
  unfolding trim trim_start
  trim_semicolon = rw ((word_parts c hc).0) (rw with_semicolon semicolon_back)

  pub trim_indented : trim (text "  " ++ ((c ∷ t) ++ text ";")) ≡ (c ∷ t) ++ text ";"
  unfolding trim trim_start
  trim_indented = rw ((word_parts c hc).0) (rw with_semicolon semicolon_back)

  pub cut_semicolon : trim_end_char b';' ((c ∷ t) ++ text ";") ≡ c ∷ t
  unfolding trim_end_char trim_start_char
  cut_semicolon = rw with_semicolon (rw ((word_parts d hd).2) back)

-- ===== src/Grpc/Compression/Choice.antt =====
-- What the two headers choose.
use typeway.Base.{
  ℕ, ◌≡◌, ◌≢◌, refl, sym, ap, ◌∙◌, List, [], ◌∷◌, ◌++◌, Option, none, some, All, append_assoc,
  append-nil, arith, ne→==,
}
use typeway.Grpc.Timeout.{trim}
use typeway.Grpc.Compression.{
  Compression, gzip, deflate, as_str, named, incoming_compression, split_commas, first_named,
  negotiate_compression,
}

-- One entry of a client's list: an algorithm, or a name that stands for none.
pub data Offer : Type 0 where
  known : Compression → Offer
  unknown : List ℕ → Offer

abbrev pub offer_text : Offer → List ℕ
offer_text (known c) = as_str c
offer_text (unknown name) = name

-- The entries with a comma and a space between them.
abbrev pub header : Offer → List Offer → List ℕ
header o [] = offer_text o
header o (p ∷ os) = offer_text o ++ b',' ∷ b' ' ∷ header p os

abbrev pub NoComma : List ℕ → Type 0
NoComma = All (λ c. c ≢ b',')

abbrev pub IsOffer : Offer → Type 0
IsOffer (known c) = Unit
IsOffer (unknown name) = NoComma name × (named (trim name) ≡ none)

-- The first algorithm of the list.
abbrev pub preferred : List Offer → Option Compression
preferred [] = none
preferred (known c ∷ os) = some c
preferred (unknown name ∷ os) = preferred os

split_commas-append :
    (part text rest : List ℕ)
    → NoComma text
    → split_commas part (text ++ rest) ≡ split_commas (part ++ text) rest
unfolding split_commas
split_commas-append part [] rest h = ap (λ p. split_commas p rest) (sym (append-nil part))
split_commas-append part (c ∷ text) rest (ne, h) = rw (ne→== c b',' ne) (
    split_commas-append (part ++ c ∷ []) text rest h
    ∙ ap (λ p. split_commas p rest) (append_assoc part (c ∷ []) text))

offer_text-NoComma : (o : Offer) → IsOffer o → NoComma (offer_text o)
unfolding as_str
offer_text-NoComma (known gzip) h = omega arith
offer_text-NoComma (known deflate) h = omega arith
offer_text-NoComma (unknown name) h = h.0

abbrev spaced : List Offer → List (List ℕ)
spaced [] = []
spaced (o ∷ os) = (b' ' ∷ offer_text o) ∷ spaced os

split_commas-header :
    (part : List ℕ) (o : Offer) (os : List Offer)
    → All IsOffer (o ∷ os)
    → split_commas part (header o os) ≡ (part ++ offer_text o) ∷ spaced os
unfolding split_commas
split_commas-header part o [] (h, k) =
    ap (split_commas part) (sym (append-nil (offer_text o)))
    ∙ split_commas-append part (offer_text o) [] (offer_text-NoComma o h)
split_commas-header part o (p ∷ os) (h, k) =
    split_commas-append part (offer_text o) (b',' ∷ b' ' ∷ header p os) (offer_text-NoComma o h)
    ∙ ap (λ t. (part ++ offer_text o) ∷ t) (split_commas-header (b' ' ∷ []) p os k)

first_named-none :
    (part : List ℕ) (parts : List (List ℕ))
    → named (trim part) ≡ none
    → first_named (part ∷ parts) ≡ first_named parts
unfolding first_named
first_named-none part parts h = rw (h, first_named) refl

first_named-cons :
    (o : Offer) (os : List Offer) (parts : List (List ℕ))
    → IsOffer o
    → first_named parts ≡ preferred os
    → first_named (offer_text o ∷ parts) ≡ preferred (o ∷ os)
unfolding first_named as_str trim
first_named-cons (known gzip) os parts h e = refl
first_named-cons (known deflate) os parts h e = refl
first_named-cons (unknown name) os parts h e = first_named-none name parts h.1 ∙ e

first_named-spaced : (os : List Offer) → All IsOffer os → first_named (spaced os) ≡ preferred os
unfolding first_named trim
first_named-spaced [] h = refl
first_named-spaced (o ∷ os) (h, k) = first_named-cons o os (spaced os) h (first_named-spaced os k)

-- From a client's list, the first name that stands for an algorithm is chosen, and none where there is
-- no such name.
pub negotiate_compression-header :
    (o : Offer) (os : List Offer)
    → All IsOffer (o ∷ os)
    → negotiate_compression (some (header o os)) ≡ preferred (o ∷ os)
unfolding negotiate_compression
negotiate_compression-header o os h =
    ap first_named (split_commas-header [] o os h)
    ∙ first_named-cons o os (spaced os) h.0 (first_named-spaced os h.1)

-- The name that is written of an algorithm is the one that is read, in both headers.
pub incoming_compression-as_str :
    (c : Compression)
    → (incoming_compression (some (as_str c)) ≡ some c)
      × (negotiate_compression (some (as_str c)) ≡ some c)
unfolding incoming_compression as_str
incoming_compression-as_str gzip = (refl, negotiate_compression-header (known gzip) [] (tt, tt))
incoming_compression-as_str deflate =
    (refl, negotiate_compression-header (known deflate) [] (tt, tt))

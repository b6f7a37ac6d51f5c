-- ===== src/Router/Prefix/Strips.antt =====
-- A prefix is taken off whole segments only.
use typeway.Base.{
  ℕ, ◌≡◌, ◌≢◌, refl, sym, ap, ◌∙◌, List, [], ◌∷◌, ◌++◌, Option, none, some, arith, append_assoc,
  append-nil, subst, ℕ_discrete, All, All-append, ne→==, eq→==,
}
use typeway.Router.Pattern.{segments, segments_from, close_part}
use typeway.Router.Prefix.{strip, at_boundary, strip_prefix, join, prefix_of, set_prefix}

strip-append : (prefix rest : List ℕ) → strip prefix (prefix ++ rest) ≡ some rest
unfolding strip
strip-append [] rest = refl
strip-append (a ∷ prefix) rest = rw (eq→== a a refl) (strip-append prefix rest)

strip_sound : (prefix path rest : List ℕ) → strip prefix path ≡ some rest → path ≡ prefix ++ rest
unfolding strip
strip_sound [] path rest e = cc
strip_sound (a ∷ prefix) [] rest e = cc
strip_sound (a ∷ prefix) (b ∷ path) rest e = ground (arith, strip_sound prefix path rest)

-- The path behind the prefix, as the router looks it up: the whole rest, or the root where nothing is
-- left.
pub data Under (prefix path : List ℕ) : List ℕ → Type 0 where
  exact : path ≡ prefix → Under prefix path (b'/' ∷ [])
  below : (rest : List ℕ) → path ≡ prefix ++ (b'/' ∷ rest) → Under prefix path (b'/' ∷ rest)

boundary_Under :
    (prefix path found : List ℕ) (o : Option (List ℕ))
    → strip prefix path ≡ o
    → at_boundary o ≡ some found
    → Under prefix path found
boundary_Under prefix path found none s e = cc
boundary_Under prefix path found (some []) s e =
    let root : b'/' ∷ [] ≡ found = cc in
    subst (λ f. Under prefix path f) root (exact (strip_sound prefix path [] s ∙ append-nil prefix))
boundary_Under prefix path found (some (c ∷ rest)) s e = elim (ℕ_discrete c b'/') [
  | yes slash ↦
      let all : b'/' ∷ rest ≡ found = ground arith in
      subst (λ f. Under prefix path f) all
        (below rest (strip_sound prefix path (c ∷ rest) s ∙ ap (λ x. prefix ++ x ∷ rest) slash))
  | no ne ↦ absurd (ground arith)
]

-- With a prefix set, what is looked up is the path behind the prefix, cut at a slash: `/apiv2` does
-- not lie under `/api`.
pub strip_prefix_sound :
    (prefix path found : List ℕ)
    → strip_prefix (some prefix) path ≡ some found
    → Under prefix path found
unfolding strip_prefix
strip_prefix_sound prefix path found e = boundary_Under prefix path found (strip prefix path) refl e

-- Every path behind the prefix, cut at a slash, is looked up.
pub strip_prefix_complete :
    (prefix path found : List ℕ)
    → Under prefix path found
    → strip_prefix (some prefix) path ≡ some found
unfolding strip_prefix
strip_prefix_complete prefix path _ (exact e) =
    rw (e ∙ sym (append-nil prefix), strip-append prefix []) refl
strip_prefix_complete prefix path _ (below rest e) = rw (e, strip-append prefix (b'/' ∷ rest)) refl

-- A segment: not empty, and without a slash.
abbrev pub NoSlash : List ℕ → Type 0
NoSlash = All (λ c. c ≢ b'/')

abbrev pub IsSegment : List ℕ → Type 0
IsSegment seg = (seg ≢ []) × NoSlash seg

close_part-IsSegment :
    (part : List ℕ) (rest : List (List ℕ))
    → NoSlash part
    → All IsSegment rest
    → All IsSegment (close_part part rest)
close_part-IsSegment [] rest h k = k
close_part-IsSegment (c ∷ part) rest h k = (((λ e. cc), h), k)

segments_from-IsSegment :
    (part path : List ℕ) → NoSlash part → All IsSegment (segments_from part path)
unfolding segments_from
segments_from-IsSegment part [] h = close_part-IsSegment part [] h tt
segments_from-IsSegment part (c ∷ path) h = elim (ℕ_discrete c b'/') [
  | yes e ↦
      rw (eq→== c b'/' e)
        (close_part-IsSegment part (segments_from [] path) h (segments_from-IsSegment [] path tt))
  | no ne ↦ rw (ne→== c b'/' ne) (
      segments_from-IsSegment (part ++ c ∷ []) path
        (All-append (λ x. x ≢ b'/') part (c ∷ []) h (ne, tt)))
]

segments_from-append :
    (part seg rest : List ℕ)
    → NoSlash seg
    → segments_from part (seg ++ rest) ≡ segments_from (part ++ seg) rest
unfolding segments_from
segments_from-append part [] rest h = ap (λ p. segments_from p rest) (sym (append-nil part))
segments_from-append part (c ∷ seg) rest (ne, h) = rw (ne→== c b'/' ne) (
    segments_from-append (part ++ c ∷ []) seg rest h
    ∙ ap (λ p. segments_from p rest) (append_assoc part (c ∷ []) seg))

close_part_of : (seg : List ℕ) (rest : List (List ℕ)) → seg ≢ [] → close_part seg rest ≡ seg ∷ rest
close_part_of [] rest h = absurd (h refl)
close_part_of (c ∷ seg) rest h = refl

segments_from-join :
    (part : List ℕ) (segs : List (List ℕ))
    → All IsSegment segs
    → segments_from part (join segs) ≡ close_part part segs
unfolding segments_from
segments_from-join part [] h = refl
segments_from-join part (seg ∷ segs) ((ne, plain), h) =
    rw (segments_from-append [] seg (join segs) plain)
      (ap (close_part part) (segments_from-join seg segs h ∙ close_part_of seg segs ne))

segments-join : (segs : List (List ℕ)) → All IsSegment segs → segments (join segs) ≡ segs
unfolding segments
segments-join segs h = segments_from-join [] segs h

prefix_of_idem :
    (segs : List (List ℕ)) (kept : List ℕ)
    → All IsSegment segs
    → prefix_of none segs ≡ some kept
    → prefix_of none (segments kept) ≡ some kept
prefix_of_idem [] kept h e = cc
prefix_of_idem (seg ∷ segs) kept h e =
    let same : join (seg ∷ segs) ≡ kept = cc in
    ap (prefix_of none) (ap segments (sym same) ∙ segments-join (seg ∷ segs) h) ∙ e

-- The prefix is kept in a normal form, one slash in front of each segment: setting it again from that
-- form changes nothing.
pub set_prefix_idem :
    (prefix kept : List ℕ) → set_prefix prefix none ≡ some kept → set_prefix kept none ≡ some kept
unfolding set_prefix
set_prefix_idem prefix kept e =
    prefix_of_idem (segments prefix) kept (segments_from-IsSegment [] prefix tt) e

-- ===== src/Router/Prefix.antt =====
-- The path prefix of router.rs, and the request path through it.
pub mod Strips
use typeway.Base.{
  ℕ, Bool, true, false, List, [], ◌∷◌, ◌++◌, Option, none, some, ◌==◌, if◌then◌else◌,
}
use typeway.Router.Pattern.{segments}

-- `str::strip_prefix`
unfoldable pub strip : List ℕ → List ℕ → Option (List ℕ)
strip [] path = some path
strip (a ∷ prefix) [] = none
strip (a ∷ prefix) (b ∷ path) = if a == b then strip prefix path else none

-- The rest of a path is kept where it is empty or starts with a slash.
abbrev pub at_boundary : Option (List ℕ) → Option (List ℕ)
at_boundary none = none
at_boundary (some []) = some (b'/' ∷ [])
at_boundary (some (c ∷ rest)) = if c == b'/' then some (c ∷ rest) else none

abbrev pub or_root : List ℕ → List ℕ
or_root [] = b'/' ∷ []
or_root (c ∷ path) = c ∷ path

unfoldable pub strip_prefix : Option (List ℕ) → List ℕ → Option (List ℕ)
unfolding strip
strip_prefix (some prefix) path = at_boundary (strip prefix path)
strip_prefix none path = some (or_root path)

-- `joined` of `set_prefix`: a slash in front of each segment.
abbrev pub join : List (List ℕ) → List ℕ
join [] = []
join (seg ∷ segs) = b'/' ∷ (seg ++ join segs)

-- The new value of `prefix_str`; a prefix with no segment changes nothing.
abbrev pub prefix_of : Option (List ℕ) → List (List ℕ) → Option (List ℕ)
prefix_of old [] = old
prefix_of old (seg ∷ segs) = some (join (seg ∷ segs))

unfoldable pub set_prefix : List ℕ → Option (List ℕ) → Option (List ℕ)
unfolding segments
set_prefix prefix old = prefix_of old (segments prefix)

-- ===== src/Dispatch/Synthetic/Paths.antt =====
-- The substituted path, against the path that the extractor `Path<T>` reads it by.
use typeway.Base.{ℕ, ◌≤◌, some, ◌≡◌, ◌≢◌, List, [], ◌∷◌, ◌++◌, All}
use typeway.Router.Pattern.Renders.{Segment, lit, typed}
use typeway.Binary.Json.{Json}
use typeway.Dispatch.Synthetic.{Http}

-- A part of a path that is neither cut nor taken for a placeholder.
abbrev pub IsPart : List ℕ → Type 0
IsPart part = (part ≢ []) × All (λ b. (b ≢ b'/') × (b ≢ b'{')) part

-- A path of literals and typed captures, with a value for each capture: the parts it stands for.
pub data Fills : List Segment → List (List ℕ) → List (List ℕ) → Type 0 where
  ends : Fills [] [] []
  literal :
      (part : List ℕ) {segs : List Segment} {values parts : List (List ℕ)}
      → IsPart part
      → Fills segs values parts
      → Fills (lit part ∷ segs) values (part ∷ parts)
  captured :
      (value : List ℕ) {segs : List Segment} {values parts : List (List ℕ)}
      → IsPart value
      → Fills segs values parts
      → Fills (typed ∷ segs) (value ∷ values) (value ∷ parts)

abbrev pub join_parts : List (List ℕ) → List ℕ
join_parts [] = []
join_parts (part ∷ parts) = b'/' ∷ (part ++ join_parts parts)

abbrev NoBrace : List ℕ → Type 0
NoBrace = All (λ b. b ≢ b'{')

-- A visible ASCII character that stands in a path for itself: no `?` or `#`, which end a path.
abbrev pub IsPathByte : ℕ → Type 0
IsPathByte b =
    (0x21 ≤ b)
    × (b ≤ 0x7E)
    × All (λ c. b ≢ c) (34 ∷ 35 ∷ 60 ∷ 62 ∷ 63 ∷ 92 ∷ 94 ∷ 96 ∷ 123 ∷ 124 ∷ 125 ∷ [])

-- `Uri` of the http crate takes a path, and gives it back.
abbrev pub ReadsPaths : (W : Http) → (W.Uri → List ℕ) → Type 0
ReadsPaths W path_of =
    (path : List ℕ)
    → All IsPathByte (b'/' ∷ path)
    → (uri : W.Uri) × (W.parse_uri (b'/' ∷ path) ≡ some uri) × (path_of uri ≡ b'/' ∷ path)

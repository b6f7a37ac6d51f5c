-- ===== src/Negotiate/Preferred.antt =====
-- The preferred entry of an `Accept` header: negotiate.rs without the sort.
use Prim.Native.Nat.{Ordering}
use typeway.Base.{
  ◌&&◌, ◌≡◌, refl, inl, inr, Bool, true, false, List, [], ◌∷◌, Option, none, some, if◌then◌else◌,
  All, In, Option-cases, arith,
}
use typeway.Base.Options.{◌>>=◌}
use typeway.Grpc.Parse.Chars.{Text, split}
use typeway.Router.Table.{is_some}
use typeway.Negotiate.{Floats, Entry, first_supported, is_greater, accept_entries, first_match}

module _ (fl : Floats) where
  open fl use {F32, partial_cmp}

  -- `a > b`
  unfoldable pub exceeds : F32 → F32 → Bool
  exceeds a b = is_greater fl (elim (partial_cmp a b) [ some o ↦ o | none ↦ Ordering.eq ])

  -- Not NaN.
  abbrev pub IsNumber : F32 → Type 0
  IsNumber a = partial_cmp a a ≡ some Ordering.eq

  abbrev pub AllNumbers : List (Entry fl) → Type 0
  AllNumbers = All (λ (e : Entry fl). IsNumber (e.1))

  -- The entries of an `Accept` header, in its order.
  abbrev pub header_entries : Text → List (Entry fl)
  header_entries accept = accept_entries fl (split b',' accept)

-- The order of f32: `>` is asymmetric, and on numbers what is not exceeded by `a` exceeds all that
-- `a` exceeds.
pub record IsOrdered (fl : Floats) : Type 0 where
  pub asym : (a b : fl.F32) → exceeds fl a b ≡ true → exceeds fl b a ≡ false
  pub through :
      (a b c : fl.F32)
      → IsNumber fl a
      → IsNumber fl b
      → IsNumber fl c
      → exceeds fl a b ≡ true
      → exceeds fl a c ≡ false
      → exceeds fl c b ≡ true

module _ (fl : Floats) (supported : List Text) where
  open fl use {F32, partial_cmp}

  abbrev pub supports : Entry fl → Bool
  supports e = is_some (first_supported (e.0) supported)

  -- The entry `x`, unless a later one that is supported has a higher quality.
  abbrev pub better : Entry fl → Option (Entry fl) → Option (Entry fl)
  better x none = some x
  better x (some y) = if exceeds fl (y.1) (x.1) then some y else some x

  -- The supported entry of highest quality, the first of these in the header.
  unfoldable pub preferred : List (Entry fl) → Option (Entry fl)
  preferred [] = none
  preferred (x ∷ l) = let rest = preferred l in if supports x then better x rest else rest

  -- The second entry does not exceed the first in quality.
  abbrev pub NotExceeded : Entry fl → Entry fl → Type 0
  NotExceeded x z = exceeds fl (z.1) (x.1) ≡ false

  -- An entry that no supported one exceeds.
  abbrev pub IsUnbeaten : Entry fl → Entry fl → Type 0
  IsUnbeaten e z = (supports z && exceeds fl (z.1) (e.1)) ≡ false

  -- What the best entry of a list is: it stands in it, it is supported, and no supported entry has
  -- a higher quality; there is none only if no entry is supported.
  abbrev pub IsBest : List (Entry fl) → Option (Entry fl) → Type 0
  IsBest l none = All (λ (z : Entry fl). supports z ≡ false) l
  IsBest l (some e) = In e l × (supports e ≡ true) × All (IsUnbeaten e) l

  abbrev pub leading : List (Entry fl) → Option (Entry fl)
  leading [] = none
  leading (x ∷ l) = let rest = leading l in if supports x then some x else rest

  pub first_match-leading :
      (l : List (Entry fl))
      → first_match fl l supported ≡ (leading l >>= λ e. first_supported (e.0) supported)
  unfolding first_match
  first_match-leading [] = refl
  first_match-leading (x ∷ l) = elim (Option-cases (first_supported (x.0) supported)) [
    | inl e ↦ ground (arith, first_match-leading l)
    | inr (i, e) ↦ ground (arith, first_match-leading l)
  ]

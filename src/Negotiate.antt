-- ===== src/Negotiate.antt =====
-- typeway-server/src/negotiate.rs: which of the supported content types answers an `Accept` header,
-- and the response that is rendered in it. An f32 is a parameter, with the operations the code calls.
pub mod Best
pub mod Preferred
pub mod Sorting
pub mod Response
pub mod Render
mod Tests
use Prim.Native.Char.{Char, code}
use Prim.Native.Nat.{Ordering}
use Prim.Native.String.{String}
use mathlib.Core.List.{reverse}
use typeway.Base.{
  ℕ, zero, suc, Bool, true, false, List, [], ◌∷◌, ◌++◌, map, Option, none, some, length, drop,
  get_elem?, if◌then◌else◌, ◌⊎◌, inl, inr,
}
use typeway.Base.Options.{◌>>=◌}
use typeway.Grpc.Parse.Chars.{Text, text, text_eq, is_empty, starts_with, trim, split, split_once}

-- What the code uses of f32: `1.0`, `parse` and `partial_cmp`.
pub record Floats : Type 1 where
  pub F32 : Type 0
  pub one : F32
  pub parse : Text → Option F32
  pub partial_cmp : F32 → F32 → Option Ordering

abbrev pub strip_prefix : Text → Text → Option Text
strip_prefix pattern t = if starts_with pattern t then some (drop (length pattern) t) else none

abbrev pub strip_suffix : Text → Text → Option Text
strip_suffix pattern t = strip_prefix (reverse pattern) (reverse t) >>= λ rest. some (reverse rest)

-- `split(c).next()`; a split has a first part.
abbrev pub first_part : List Text → Text
first_part [] = []
first_part (part ∷ parts) = part

-- `accept_type == "*/*"`, the base of the supported type, or `type/*`
unfoldable pub media_type_matches : Text → Text → Bool
unfolding split trim
media_type_matches accept_type supported =
    let supported_base = trim (first_part (split b';' supported)) in
    if text_eq accept_type (text "*/*")
    then true
    else if text_eq accept_type supported_base
    then true
    else elim (strip_suffix (text "/*") accept_type) [
      | some prefix ↦ text_eq prefix (first_part (split b'/' supported_base))
      | none ↦ false
    ]

-- The index of the first supported type that a media type matches: the inner loop of `best_match`.
unfoldable pub first_supported : Text → List Text → Option ℕ
unfolding media_type_matches
first_supported media_type [] = none
first_supported media_type (s ∷ supported) =
    let rest = first_supported media_type supported in
    if media_type_matches media_type s then some 0 else (rest >>= λ i. some (suc i))

module _ (fl : Floats) where
  open fl use {F32, one, parse, partial_cmp}

  -- An entry of the header: the media type and its quality.
  abbrev pub Entry : Type 0
  Entry = Text × F32

  -- `params.split(';').find_map(..)`
  unfoldable pub quality : List Text → Option F32
  unfolding trim
  quality [] = none
  quality (p ∷ params) = elim (strip_prefix (text "q=") (trim p) >>= λ q. parse (trim q)) [
    | some q ↦ some q
    | none ↦ quality params
  ]

  -- `parts.next()` of the parameters, and `unwrap_or(1.0)`
  unfoldable pub quality_or_one : Option Text → F32
  unfolding quality split
  quality_or_one none = one
  quality_or_one (some params) = elim (quality (split b';' params)) [ some q ↦ q | none ↦ one ]

  -- The closure of `filter_map`, on an entry that is trimmed.
  unfoldable pub accept_entry : Text → Option Entry
  unfolding quality_or_one split_once trim
  accept_entry [] = none
  accept_entry (c ∷ t) = some (elim (split_once b';' (c ∷ t)) [
    | none ↦ (trim (c ∷ t), quality_or_one none)
    | some r ↦ (trim (r.0), quality_or_one (some (r.1)))
  ])

  unfoldable pub accept_entries : List Text → List Entry
  unfolding accept_entry
  accept_entries [] = []
  accept_entries (part ∷ parts) = elim (accept_entry (trim part)) [
    | none ↦ accept_entries parts
    | some e ↦ e ∷ accept_entries parts
  ]

  -- `b.1.partial_cmp(&a.1).unwrap_or(Equal)`
  unfoldable pub compare_entries : Entry → Entry → Ordering
  compare_entries a b = elim (partial_cmp (b.1) (a.1)) [ some o ↦ o | none ↦ Ordering.eq ]

  abbrev pub is_greater : Ordering → Bool
  is_greater Ordering.gt = true
  is_greater Ordering.lt = false
  is_greater Ordering.eq = false

  -- A stable sort: an entry goes in front of the first that it is not greater than.
  unfoldable pub insert : Entry → List Entry → List Entry
  unfolding compare_entries
  insert x [] = x ∷ []
  insert x (y ∷ l) = if is_greater (compare_entries x y) then y ∷ insert x l else x ∷ y ∷ l

  -- `entries.sort_by`, where no quality is NaN. With one the comparison is no total order, and `sort_by`
  -- may give any order or panic, which this does not say.
  unfoldable pub sort_entries : List Entry → List Entry
  unfolding insert
  sort_entries [] = []
  sort_entries (x ∷ l) = insert x (sort_entries l)

  unfoldable pub parse_accept : Text → List Entry
  unfolding sort_entries accept_entries split
  parse_accept accept = sort_entries (accept_entries (split b',' accept))

  -- The loops of `best_match` over the entries and the supported types.
  unfoldable pub first_match : List Entry → List Text → Option ℕ
  unfolding first_supported
  first_match [] supported = none
  first_match (e ∷ entries) supported = elim (first_supported (e.0) supported) [
    | some i ↦ some i
    | none ↦ first_match entries supported
  ]

  abbrev pub or_zero : Option ℕ → ℕ
  or_zero none = 0
  or_zero (some i) = i

  unfoldable pub best_match : Option Text → List Text → ℕ
  unfolding first_match parse_accept
  best_match none supported = 0
  best_match (some accept) supported =
      if is_empty accept then 0 else or_zero (first_match (parse_accept accept) supported)

-- ===== src/Negotiate/Best.antt =====
-- What `best_match` chooses, stated on the entries as they stand in the header.
use typeway.Base.{
  ◌≡◌, refl, sym, ap, subst, ◌∙◌, inl, inr, true, false, List, [], ◌∷◌, Option, none, some, All, In,
  Bool-cases,
}
use typeway.Base.Options.{◌>>=◌}
use typeway.Grpc.Parse.Chars.{Text}
use typeway.Negotiate.{Floats, Entry, first_supported, parse_accept, best_match, or_zero}
use typeway.Negotiate.Preferred.{
  exceeds, IsNumber, AllNumbers, header_entries, IsOrdered, supports, better, preferred,
  NotExceeded, IsUnbeaten, IsBest, first_match-leading,
}
use typeway.Negotiate.Sorting.{NotExceeded-below, leading-sort}

module _ (fl : Floats) (order : IsOrdered fl) (supported : List Text) where
  open fl use {F32}

  Unbeaten-below :
      (x y z : Entry fl)
      → IsNumber fl (x.1)
      → IsNumber fl (y.1)
      → IsNumber fl (z.1)
      → NotExceeded fl supported x y
      → IsUnbeaten fl supported y z
      → IsUnbeaten fl supported x z
  Unbeaten-below x y z nx ny nz h k = elim (Bool-cases (supports fl supported z)) [
    | inl t ↦
        let kept : NotExceeded fl supported y z = rw t at k in
        rw (t, NotExceeded-below fl order supported x y z nx ny nz h kept) refl
    | inr f ↦ rw f refl
  ]

  All-lower :
      (x y : Entry fl) (l : List (Entry fl))
      → IsNumber fl (x.1)
      → IsNumber fl (y.1)
      → AllNumbers fl l
      → NotExceeded fl supported x y
      → All (IsUnbeaten fl supported y) l
      → All (IsUnbeaten fl supported x) l
  All-lower x y [] nx ny n h k = tt
  All-lower x y (z ∷ l) nx ny (nz, n) h (kz, k) =
      (Unbeaten-below x y z nx ny nz h kz, All-lower x y l nx ny n h k)

  All-Unbeaten :
      (x : Entry fl) (l : List (Entry fl))
      → All (λ (z : Entry fl). supports fl supported z ≡ false) l
      → All (IsUnbeaten fl supported x) l
  All-Unbeaten x [] h = tt
  All-Unbeaten x (z ∷ l) (hz, h) = (rw hz refl, All-Unbeaten x l h)

  In-numbers : (e : Entry fl) (l : List (Entry fl)) → In e l → AllNumbers fl l → IsNumber fl (e.1)
  In-numbers e [] m n = elim m [ ]
  In-numbers e (x ∷ l) (inl q) (nx, n) = subst (λ (z : Entry fl). IsNumber fl (z.1)) (sym q) nx
  In-numbers e (x ∷ l) (inr m) (nx, n) = In-numbers e l m n

  exceeds_irrefl : (a : F32) → exceeds fl a a ≡ false
  exceeds_irrefl a = elim (Bool-cases (exceeds fl a a)) [ inl e ↦ order.asym a a e | inr e ↦ e ]

  better-IsBest :
      (x : Entry fl) (l : List (Entry fl)) (o : Option (Entry fl))
      → IsNumber fl (x.1)
      → AllNumbers fl l
      → supports fl supported x ≡ true
      → IsBest fl supported l o
      → IsBest fl supported (x ∷ l) (better fl supported x o)
  better-IsBest x l none nx n t h =
      (inl refl, t, (rw (t, exceeds_irrefl (x.1)) refl, All-Unbeaten x l h))
  better-IsBest x l (some y) nx n t (m, u, h) = elim (Bool-cases (exceeds fl (y.1) (x.1))) [
    | inl e ↦ rw e (inr m, u, (rw (t, order.asym (y.1) (x.1) e) refl, h))
    | inr e ↦ rw e (
      inl refl,
      t,
      (rw (t, exceeds_irrefl (x.1)) refl, All-lower x y l nx (In-numbers y l m n) n e h),
    )
  ]

  skip-IsBest :
      (x : Entry fl) (l : List (Entry fl)) (o : Option (Entry fl))
      → supports fl supported x ≡ false
      → IsBest fl supported l o
      → IsBest fl supported (x ∷ l) o
  skip-IsBest x l none f h = (f, h)
  skip-IsBest x l (some e) f (m, u, h) = (inr m, u, (rw f refl, h))

  preferred-IsBest :
      (l : List (Entry fl)) → AllNumbers fl l → IsBest fl supported l (preferred fl supported l)
  unfolding preferred
  preferred-IsBest [] n = tt
  preferred-IsBest (x ∷ l) (nx, n) = elim (Bool-cases (supports fl supported x)) [
    | inl t ↦ rw t (better-IsBest x l (preferred fl supported l) nx n t (preferred-IsBest l n))
    | inr t ↦ rw t (skip-IsBest x l (preferred fl supported l) t (preferred-IsBest l n))
  ]

  -- Where no quality of the header is NaN, `best_match` answers with the first supported type that
  -- the preferred entry of the header admits (the first format if there is none), although it sorts
  -- the entries first; and the preferred entry is the best: supported, in the header, and exceeded
  -- in quality by no supported entry.
  pub best_match-IsBest :
      (accept : Text)
      → AllNumbers fl (header_entries fl accept)
      → (best_match fl (some accept) supported
          ≡ or_zero fl (
              preferred fl supported (header_entries fl accept) >>= λ e.
              first_supported (e.0) supported))
        × IsBest fl supported
            (header_entries fl accept)
            (preferred fl supported (header_entries fl accept))
  unfolding best_match preferred
  best_match-IsBest [] n = (refl, tt)
  best_match-IsBest (c ∷ accept) n = (
    ap (or_zero fl) (
        first_match-leading fl supported (parse_accept fl (c ∷ accept))
        ∙ ap (λ (o : Option (Entry fl)). o >>= λ e. first_supported (e.0) supported)
            (leading-sort fl order supported (header_entries fl (c ∷ accept)) n)),
    preferred-IsBest (header_entries fl (c ∷ accept)) n,
  )

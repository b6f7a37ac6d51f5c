-- ===== src/Negotiate/Sorting.antt =====
-- The sort of negotiate.rs: the first supported entry of the sorted list is the preferred one.
use typeway.Base.{
  ◌≡◌, refl, sym, ap, subst, ◌∙◌, inl, inr, List, [], ◌∷◌, Option, some, if◌then◌else◌, All,
  Bool-cases, Option-cases, arith,
}
use typeway.Grpc.Parse.Chars.{Text}
use typeway.Negotiate.{Floats, Entry, insert, sort_entries, compare_entries, is_greater}
use typeway.Negotiate.Preferred.{
  exceeds, IsNumber, AllNumbers, IsOrdered, supports, better, preferred, NotExceeded, leading,
}

module _ (fl : Floats) (order : IsOrdered fl) (supported : List Text) where
  open fl use {F32}

  abbrev IsSorted : List (Entry fl) → Type 0
  IsSorted [] = Unit {0}
  IsSorted (x ∷ l) = All (NotExceeded fl supported x) l × IsSorted l

  All-insert :
      (P : Entry fl → Type 0) (x : Entry fl) (l : List (Entry fl))
      → P x
      → All P l
      → All P (insert fl x l)
  unfolding insert
  All-insert P x [] p h = (p, tt)
  All-insert P x (y ∷ l) p (q, h) = elim (Bool-cases (is_greater fl (compare_entries fl x y))) [
    | inl e ↦ rw e (q, All-insert P x l p h)
    | inr e ↦ rw e (p, (q, h))
  ]

  All-sort : (P : Entry fl → Type 0) (l : List (Entry fl)) → All P l → All P (sort_entries fl l)
  unfolding sort_entries
  All-sort P [] h = tt
  All-sort P (x ∷ l) (p, h) = All-insert P x (sort_entries fl l) p (All-sort P l h)

  -- What is not exceeded by `y` is not exceeded through `y` by anything smaller.
  pub NotExceeded-below :
      (x y z : Entry fl)
      → IsNumber fl (x.1)
      → IsNumber fl (y.1)
      → IsNumber fl (z.1)
      → NotExceeded fl supported x y
      → NotExceeded fl supported y z
      → NotExceeded fl supported x z
  NotExceeded-below x y z nx ny nz h k = elim (Bool-cases (exceeds fl (z.1) (x.1))) [
    | inl e ↦ cc (order.through (z.1) (x.1) (y.1) nz nx ny e k)
    | inr e ↦ e
  ]

  All-below :
      (x y : Entry fl) (l : List (Entry fl))
      → IsNumber fl (x.1)
      → IsNumber fl (y.1)
      → AllNumbers fl l
      → NotExceeded fl supported x y
      → All (NotExceeded fl supported y) l
      → All (NotExceeded fl supported x) l
  All-below x y [] nx ny n h k = tt
  All-below x y (z ∷ l) nx ny (nz, n) h (kz, k) =
      (NotExceeded-below x y z nx ny nz h kz, All-below x y l nx ny n h k)

  -- The comparator of the sort is the order of the qualities.
  greater-exceeds :
      (x y : Entry fl) → is_greater fl (compare_entries fl x y) ≡ exceeds fl (y.1) (x.1)
  unfolding compare_entries exceeds
  greater-exceeds x y = refl

  insert-IsSorted :
      (x : Entry fl) (l : List (Entry fl))
      → IsNumber fl (x.1)
      → AllNumbers fl l
      → IsSorted l
      → IsSorted (insert fl x l)
  unfolding insert
  insert-IsSorted x [] nx n s = (tt, tt)
  insert-IsSorted x (y ∷ l) nx (ny, n) (h, s) = elim (Bool-cases (exceeds fl (y.1) (x.1))) [
    | inl e ↦
        rw (greater-exceeds x y, e)
          (
            All-insert (NotExceeded fl supported y) x l (order.asym (y.1) (x.1) e) h,
            insert-IsSorted x l nx n s,
          )
    | inr e ↦ rw (greater-exceeds x y, e) ((e, All-below x y l nx ny n e h), (h, s))
  ]

  sort_entries-IsSorted : (l : List (Entry fl)) → AllNumbers fl l → IsSorted (sort_entries fl l)
  unfolding sort_entries
  sort_entries-IsSorted [] n = tt
  sort_entries-IsSorted (x ∷ l) (nx, n) =
      insert-IsSorted x (sort_entries fl l) nx (All-sort (λ (e : Entry fl). IsNumber fl (e.1)) l n)
        (sort_entries-IsSorted l n)

  leading-All :
      (P : Entry fl → Type 0) (l : List (Entry fl)) (e : Entry fl)
      → All P l
      → leading fl supported l ≡ some e
      → P e
  leading-All P [] e h k = cc
  leading-All P (x ∷ l) e (p, h) k = elim (Bool-cases (supports fl supported x)) [
    | inl t ↦ let k' : some x ≡ some e = rw t at k in subst P (cc k') p
    | inr t ↦ leading-All P l e h (rw t at k)
  ]

  better-kept :
      (x : Entry fl) (l : List (Entry fl))
      → All (NotExceeded fl supported x) l
      → better fl supported x (leading fl supported l) ≡ some x
  better-kept x l h = elim (Option-cases (leading fl supported l)) [
    | inl e ↦ rw e refl
    | inr (y, e) ↦ rw (e, leading-All (NotExceeded fl supported x) l y h e) refl
  ]

  -- Where a sorted list gets an entry, the first supported one is the better of the two.
  leading-insert :
      (x : Entry fl) (l : List (Entry fl))
      → IsNumber fl (x.1)
      → AllNumbers fl l
      → IsSorted l
      → leading fl supported (insert fl x l) ≡ (
          let rest = leading fl supported l in
          if supports fl supported x then better fl supported x rest else rest)
  unfolding insert
  leading-insert x [] nx n s = refl
  leading-insert x (y ∷ l) nx (ny, n) (h, s) = elim (Bool-cases (exceeds fl (y.1) (x.1))) [
    | inl e ↦ rw (greater-exceeds x y, e) (ground (arith, leading-insert x l nx n s))
    | inr e ↦
        rw (greater-exceeds x y, e)
          (ap
            (λ (o : Option (Entry fl)).
              if supports fl supported x then o else leading fl supported (y ∷ l))
            (sym (better-kept x (y ∷ l) (e, All-below x y l nx ny n e h))))
  ]

  pub leading-sort :
      (l : List (Entry fl))
      → AllNumbers fl l
      → leading fl supported (sort_entries fl l) ≡ preferred fl supported l
  unfolding sort_entries preferred
  leading-sort [] n = refl
  leading-sort (x ∷ l) (nx, n) =
      leading-insert x (sort_entries fl l) nx (All-sort (λ (e : Entry fl). IsNumber fl (e.1)) l n)
        (sort_entries-IsSorted l n)
      ∙ ap
          (λ (o : Option (Entry fl)).
            if supports fl supported x then better fl supported x o else o)
          (leading-sort l n)

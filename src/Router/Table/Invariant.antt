-- ===== src/Router/Table/Invariant.antt =====
-- The invariant of the routing table, and that registration keeps it.
use typeway.Base.{
  ℕ, ◌<◌, ◌≡◌, ◌≢◌, ◌⊎◌, inl, inr, refl, sym, ap, ap₂, zero, suc, subst, ◌∙◌, Bool, true, false,
  List, [], ◌∷◌, ◌++◌, some, length, get_elem?, get_elem?-append_left, get_elem?-append_length, In,
  In-append_cases, In-append_left, In-append_right, ◌==◌, eq→==, ne→==, Bool-cases, Option-cases,
  bit_or, arith, ℕ_discrete,
}
use typeway.Router.Table.Mask.{only_bit, bit_or_small}
use typeway.Router.Matchit.{Matchit}
use typeway.Router.Method.{
  Method, MethodIndex, bucket, set_bucket, method_bit, bucket-set_bucket, bucket_of_bit,
}
use typeway.Router.Pattern.{bytes_eq, to_matchit_pattern}
use typeway.Router.Table.{
  RouteEntry, contains, MethodBucket, RouterInner, empty_bucket, new, add_to_bucket, Shapes, shapes,
  add_shape, add_route,
}

pub bytes_eq→eq : (s t : List ℕ) → bytes_eq s t ≡ true → s ≡ t
bytes_eq→eq [] [] e = refl
bytes_eq→eq [] (b ∷ t) e = cc
bytes_eq→eq (a ∷ s) [] e = cc
bytes_eq→eq (a ∷ s) (b ∷ t) e = ground (arith, bytes_eq→eq s t)

some_eq {ℓ} : {A : Type ℓ} {b c : A} → some b ≡ some c → c ≡ b
some_eq q = cc

get_elem?-snoc {ℓ} :
    {A : Type ℓ} (xs : List A) (a : A) (i : ℕ) {r : A}
    → get_elem? (xs ++ a ∷ []) i ≡ some r
    → (get_elem? xs i ≡ some r) ⊎ ((i ≡ length xs) × (r ≡ a))
get_elem?-snoc [] a zero e = inr (refl, some_eq e)
get_elem?-snoc [] a (suc i) e = cc
get_elem?-snoc (x ∷ xs) a zero e = inl e
get_elem?-snoc (x ∷ xs) a (suc i) e = elim (get_elem?-snoc xs a i e) [
  | inl q ↦ inl q
  | inr (at, is) ↦ inr (ap suc at, is)
]

module _ (matches : List ℕ → List ℕ → Bool) (T : Matchit matches ℕ) (U : Matchit matches (Unit {0}))
    (H : Type 0) where
  -- A method and a trie key belong to the route at an index.
  pub record Registered (routes : List (RouteEntry H)) (m : Method) (key : List ℕ) (i : ℕ)
      : Type 0 where
    pub route : RouteEntry H
    pub found : get_elem? routes i ≡ some route
    pub keyed : to_matchit_pattern route.pattern ≡ key
    pub same_bucket : method_bit route.method ≡ method_bit m

  -- A bucket holds the route at an index: in its trie under the route's pattern, or in its fallback.
  abbrev pub Held : MethodBucket matches T U H → RouteEntry H → ℕ → Type 0
  Held b r i = In (to_matchit_pattern r.pattern, i) (T.entries b.trie) ⊎ In i b.fallback

  -- What a bucket holds are routes of its method, and all of them.
  pub record Holds (routes : List (RouteEntry H)) (m : Method) (b : MethodBucket matches T U H)
      : Type 0 where
    pub indexed :
        (key : List ℕ) (i : ℕ) → In (key, i) (T.entries b.trie) → Registered routes m key i
    pub fallen : (i : ℕ) → In i b.fallback → (key : List ℕ) × Registered routes m key i
    pub complete :
        (i : ℕ) (r : RouteEntry H)
        → get_elem? routes i ≡ some r
        → method_bit r.method ≡ method_bit m
        → Held b r i

  -- The unified trie holds the pattern of each route, unless a conflict was recorded.
  pub record Mirrors (routes : List (RouteEntry H)) (s : Shapes matches T U H) : Type 0 where
    pub seen_held :
        (key : List ℕ)
        → contains key s.seen ≡ true
        → s.has_fallback ≡ false
        → In (key, tt) (U.entries s.trie)
    pub mirrored :
        (e : RouteEntry H)
        → In e routes
        → s.has_fallback ≡ false
        → In (to_matchit_pattern e.pattern, tt) (U.entries s.trie)

  -- The bitmap names the one bucket in use, where there is one only.
  pub record Masks (mask : ℕ) (ix : MethodIndex (MethodBucket matches T U H)) : Type 0 where
    pub small : mask < 256
    pub unused : mask ≡ 0 → (m : Method) → bucket ix m ≡ empty_bucket matches T U H
    pub single :
        (n : Method)
        → mask ≡ method_bit n
        → (m : Method) → method_bit m ≢ method_bit n
        → bucket ix m ≡ empty_bucket matches T U H

  pub record IsValid (inner : RouterInner matches T U H) : Type 0 where
    pub holds : (m : Method) → Holds inner.routes m (bucket inner.method_index m)
    pub mirrors : Mirrors inner.routes (shapes matches T U H inner)
    pub masks : Masks inner.methods_present inner.method_index

  Registered-append :
      (routes : List (RouteEntry H)) (e : RouteEntry H) (m : Method) (key : List ℕ) (i : ℕ)
      → Registered routes m key i
      → Registered (routes ++ e ∷ []) m key i
  Registered-append routes e m key i r = record {
    route = r.route;
    found = get_elem?-append_left routes (e ∷ []) i r.found;
    keyed = r.keyed;
    same_bucket = r.same_bucket;
  }

  Registered-last :
      (routes : List (RouteEntry H)) (e : RouteEntry H) (m : Method)
      → method_bit e.method ≡ method_bit m
      → Registered (routes ++ e ∷ []) m (to_matchit_pattern e.pattern) (length routes)
  Registered-last routes e m h = record {
    route = e;
    found = get_elem?-append_length routes [] e;
    keyed = refl;
    same_bucket = h;
  }

  Holds-append :
      (routes : List (RouteEntry H)) (e : RouteEntry H) (m : Method)
      (b : MethodBucket matches T U H)
      → Holds routes m b
      → method_bit e.method ≢ method_bit m
      → Holds (routes ++ e ∷ []) m b
  Holds-append routes e m b h ne = record {
    indexed = λ key i p. Registered-append routes e m key i (h.indexed key i p);
    fallen = λ i p. let (key, r) = h.fallen i p in (key, Registered-append routes e m key i r);
    complete = λ i r found same. elim (get_elem?-snoc routes e i found) [
      | inl q ↦ h.complete i r q same
      | inr (_, is) ↦ absurd (ne (ap (λ x. method_bit x.method) (sym is) ∙ same))
    ];
  }

  -- The bucket that a route is added to.
  add_to_bucket-Holds :
      (routes : List (RouteEntry H)) (e : RouteEntry H) (m : Method)
      (b : MethodBucket matches T U H)
      → Holds routes m b
      → method_bit e.method ≡ method_bit m
      → Holds
          (routes ++ e ∷ [])
          m
          (add_to_bucket matches T U H (to_matchit_pattern e.pattern) (length routes) b)
  unfolding add_to_bucket
  add_to_bucket-Holds routes e m b h same =
      let key : List ℕ = to_matchit_pattern e.pattern in
      elim (Option-cases (T.insert key (length routes) b.trie)) [
        | inl refused ↦
            rw (refused, add_to_bucket)
              (record {
                indexed = λ k i p. Registered-append routes e m k i (h.indexed k i p);
                fallen = λ i p. elim (In-append_cases i b.fallback (length routes ∷ []) p) [
                  | inl q ↦ let (k, r) = h.fallen i q in (k, Registered-append routes e m k i r)
                  | inr (inl q) ↦ (key, rw q (Registered-last routes e m same))
                  | inr (inr q) ↦ elim q [ ]
                ];
                complete = λ i r found at_bit. elim (get_elem?-snoc routes e i found) [
                  | inl q ↦ elim (h.complete i r q at_bit) [
                    | inl k ↦ inl k
                    | inr k ↦ inr (In-append_left i b.fallback (length routes ∷ []) k)
                  ]
                  | inr (at, is) ↦ inr (In-append_right i b.fallback (length routes ∷ []) (inl at))
                ];
              })
        | inr (trie, added) ↦
            rw (added, add_to_bucket)
              (record {
                indexed = λ k i p.
                    elim (subst (λ l. In (k, i) l)
                      (T.entries-insert key (length routes) b.trie trie added) p) [
                        | inl q ↦
                            rw (ap (λ t. t.0) q, ap (λ t. t.1) q) (Registered-last routes e m same)
                        | inr q ↦ Registered-append routes e m k i (h.indexed k i q)
                      ];
                fallen =
                    λ i p. let (k, r) = h.fallen i p in (k, Registered-append routes e m k i r);
                complete = λ i r found at_bit.
                    let grown = T.entries-insert key (length routes) b.trie trie added in
                    elim (get_elem?-snoc routes e i found) [
                      | inl q ↦ elim (h.complete i r q at_bit) [
                        | inl k ↦ inl (rw grown (inr k))
                        | inr k ↦ inr k
                      ]
                      | inr (at, is) ↦ inl (
                          rw grown (
                            inl (
                              ap₂ (λ (k : List ℕ) (n : ℕ). (k, n))
                                (ap (λ x. to_matchit_pattern x.pattern) is) at)))
                    ];
              })
      ]

  -- A pattern that was inserted, or seen before, is held.
  Mirrors-append :
      (routes : List (RouteEntry H)) (e : RouteEntry H) (s : Shapes matches T U H)
      → ((key : List ℕ)
          → contains key s.seen ≡ true
          → s.has_fallback ≡ false
          → In (key, tt) (U.entries s.trie))
      → ((r : RouteEntry H)
          → In r routes
          → s.has_fallback ≡ false
          → In (to_matchit_pattern r.pattern, tt) (U.entries s.trie))
      → (s.has_fallback ≡ false → In (to_matchit_pattern e.pattern, tt) (U.entries s.trie))
      → Mirrors (routes ++ e ∷ []) s
  Mirrors-append routes e s held old fresh = record {
    seen_held = held;
    mirrored = λ r p clean. elim (In-append_cases r routes (e ∷ []) p) [
      | inl q ↦ old r q clean
      | inr (inl q) ↦ rw q (fresh clean)
      | inr (inr q) ↦ elim q [ ]
    ];
  }

  contains-cons :
      (key k : List ℕ) (seen : List (List ℕ))
      → contains k (key ∷ seen) ≡ true
      → (k ≡ key) ⊎ (contains k seen ≡ true)
  contains-cons key k seen e = elim (Bool-cases (bytes_eq k key)) [
    | inl q ↦ inl (bytes_eq→eq k key q)
    | inr q ↦ inr (rw q at e)
  ]

  add_shape-Mirrors :
      (routes : List (RouteEntry H)) (e : RouteEntry H) (s : Shapes matches T U H)
      → Mirrors routes s
      → Mirrors (routes ++ e ∷ []) (add_shape matches T U H (to_matchit_pattern e.pattern) s)
  unfolding add_shape
  add_shape-Mirrors routes e s h =
      let key : List ℕ = to_matchit_pattern e.pattern in
      elim (Bool-cases (contains key s.seen)) [
        | inl old ↦
            rw (old, add_shape)
              (Mirrors-append routes e s h.seen_held h.mirrored (h.seen_held key old))
        | inr fresh ↦ elim (Option-cases (U.insert key tt s.trie)) [
          | inl refused ↦
              rw (fresh, refused, add_shape)
                (Mirrors-append routes e (record s { seen = key ∷ s.seen; has_fallback = true })
                  (λ k p clean. cc) (λ r p clean. cc) (λ clean. cc))
          | inr (trie, added) ↦
              rw (fresh, added, add_shape)
                (let grown : U.entries trie ≡ (key, tt) ∷ U.entries s.trie =
                    U.entries-insert key tt s.trie trie added in
                  Mirrors-append routes e (record s { trie = trie; seen = key ∷ s.seen })
                    (λ k p clean. rw grown (elim (contains-cons key k s.seen p) [
                      | inl q ↦ inl (ap (λ x. (x, tt)) q)
                      | inr q ↦ inr (h.seen_held k q clean)
                    ]))
                    (λ r p clean. rw grown (inr (h.mirrored r p clean)))
                    (λ clean. rw grown (inl refl)))
        ]
      ]

  add_route-Masks :
      (m : Method) (mask : ℕ) (ix : MethodIndex (MethodBucket matches T U H))
      (b : MethodBucket matches T U H)
      → Masks mask ix
      → Masks (bit_or mask (method_bit m)) (set_bucket ix m b)
  add_route-Masks m mask ix b h = record {
    small = (bit_or_small m mask h.small).0;
    unused = λ e n. absurd ((bit_or_small m mask h.small).1 e);
    single = λ n e k ne.
        let (same, before) = only_bit m n mask h.small e in
        let other : (method_bit m == method_bit k) ≡ false =
          ne→== (method_bit m) (method_bit k) (λ q. ne (sym q ∙ same)) in
        rw (bucket-set_bucket ix m k b, other)
          (elim before [ inl q ↦ h.single n q k ne | inr q ↦ h.unused q k ]);
  }

  -- Registering a route keeps the table in order: each bucket holds all routes of its methods and no
  -- others, by their indices, in its trie under their patterns or in its fallback; the trie of all
  -- shapes has the pattern of every route unless a conflict was noted; and the bitmap is zero only
  -- where all buckets are empty, and one method's bit only where all others are.
  pub add_route-IsValid :
      (e : RouteEntry H) (inner : RouterInner matches T U H)
      → IsValid inner
      → IsValid (add_route matches T U H e inner)
  unfolding add_route
  add_route-IsValid e inner v = record {
    holds = λ m. elim (ℕ_discrete (method_bit e.method) (method_bit m)) [
      | yes same ↦
          rw
            (
              bucket-set_bucket inner.method_index e.method m (
                  add_to_bucket matches T U H (to_matchit_pattern e.pattern) (length inner.routes)
                    (bucket inner.method_index e.method)),
              eq→== (method_bit e.method) (method_bit m) same,
              bucket_of_bit inner.method_index e.method m same,
            )
            (add_to_bucket-Holds inner.routes e m (bucket inner.method_index m) (v.holds m) same)
      | no ne ↦
          rw
            (
              bucket-set_bucket inner.method_index e.method m (
                  add_to_bucket matches T U H (to_matchit_pattern e.pattern) (length inner.routes)
                    (bucket inner.method_index e.method)),
              ne→== (method_bit e.method) (method_bit m) ne,
            )
            (Holds-append inner.routes e m (bucket inner.method_index m) (v.holds m) ne)
    ];
    mirrors = add_shape-Mirrors inner.routes e (shapes matches T U H inner) v.mirrors;
    masks =
        add_route-Masks e.method inner.methods_present inner.method_index
          (add_to_bucket matches T U H (to_matchit_pattern e.pattern) (length inner.routes)
            (bucket inner.method_index e.method))
          v.masks;
  }

  new_bucket : (m : Method) → bucket (new matches T U H).method_index m ≡ empty_bucket matches T U H
  unfolding bucket
  new_bucket Method.get = refl
  new_bucket _ = refl

  pub new-IsValid : IsValid (new matches T U H)
  new-IsValid = record {
    holds = λ m. rw (new_bucket m) (record {
      indexed = λ key i p. elim (subst (λ l. In (key, i) l) T.entries-new p) [ ];
      fallen = λ i p. elim p [ ];
      complete = λ i r found at_bit. cc;
    });
    mirrors = record { seen_held = λ key e clean. cc; mirrored = λ e p clean. elim p [ ] };
    masks = record {
      small = omega arith;
      unused = λ e m. new_bucket m;
      single = λ n e m ne. new_bucket m;
    };
  }

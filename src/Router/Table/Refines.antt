-- ===== src/Router/Table/Refines.antt =====
-- Resolution against a plain search: what the shortcuts for a miss leave out changes nothing.
use typeway.Base.{
  ℕ, zero, suc, ◌≡◌, ◌⊎◌, inl, inr, refl, ap, subst, Bool, true, false, List, [], ◌∷◌, Option, none,
  some, get_elem?, any, find_sound, In, eq→==, ne→==, Bool-cases, Option-cases, if◌then◌else◌,
  ℕ_discrete,
}
use typeway.Router.Matchit.{Matchit}
use typeway.Router.Method.{
  Method, extension, MethodIndex, bucket, all_buckets, method_bit, bucket_of_bit,
}
use typeway.Router.Pattern.{segments, to_matchit_pattern}
use typeway.Router.Table.{
  RouteEntry, is_some, MethodBucket, RouterInner, empty_bucket, accepts, lookup_in_bucket,
  LookupOutcome, hit, method_not_allowed, not_found, resolve_miss, resolve,
}
use typeway.Router.Table.Invariant.{Registered, IsValid}
use typeway.Router.Table.Build.{build, build-IsValid, build-routes}

get_elem?-In : {A : Type 0} (xs : List A) (i : ℕ) (a : A) → get_elem? xs i ≡ some a → In a xs
get_elem?-In [] i a e = cc
get_elem?-In (x ∷ xs) zero a e = inl (cc)
get_elem?-In (x ∷ xs) (suc i) a e = inr (get_elem?-In xs i a e)

any_buckets :
    {B : Type 0} (p : B → Bool) (ix : MethodIndex B)
    → ((m : Method) → p (bucket ix m) ≡ false)
    → any p (all_buckets ix) ≡ false
unfolding bucket
any_buckets p ix h =
    rw
      (
        h Method.get,
        h Method.post,
        h Method.put,
        h Method.delete,
        h Method.patch,
        h Method.head,
        h Method.options,
        h (extension ""),
      )
      refl

module _ (matches : List ℕ → List ℕ → Bool) (T : Matchit matches ℕ) (U : Matchit matches (Unit {0}))
    (H : Type 0) where
  abbrev pub lookup : RouterInner matches T U H → Method → List ℕ → Option ℕ
  lookup inner m path =
      lookup_in_bucket matches T U H (bucket inner.method_index m) inner.routes path

  -- A route is accepted that the bucket holds.
  lookup_in_bucket_sound :
      (b : MethodBucket matches T U H) (routes : List (RouteEntry H)) (path : List ℕ) (i : ℕ)
      → lookup_in_bucket matches T U H b routes path ≡ some i
      → (accepts matches T U H routes (segments path) i ≡ true)
        × ((T.at b.trie path ≡ some i) ⊎ In i b.fallback)
  unfolding lookup_in_bucket
  lookup_in_bucket_sound b routes path i e =
      let p : ℕ → Bool = accepts matches T U H routes (segments path) in
      elim (Option-cases (T.at b.trie path)) [
        | inl missed ↦
            let (a, q) = find_sound p b.fallback i (rw (missed, lookup_in_bucket) at e) in
            (a, inr q)
        | inr (idx, found) ↦ elim (Bool-cases (p idx)) [
          | inl good ↦
              let q : some idx ≡ some i = rw (found, good, lookup_in_bucket) at e in
              let same : idx ≡ i = cc in (rw (← same) good, inl (rw (← same) found))
          | inr bad ↦
              let (a, q) = find_sound p b.fallback i (rw (found, bad, lookup_in_bucket) at e) in
              (a, inr q)
        ]
      ]

  lookup_empty :
      (routes : List (RouteEntry H)) (path : List ℕ)
      → lookup_in_bucket matches T U H (empty_bucket matches T U H) routes path ≡ none
  unfolding lookup_in_bucket
  lookup_empty routes path = elim (Option-cases (T.at T.new path)) [
    | inl missed ↦ rw (missed, lookup_in_bucket) refl
    | inr (idx, found) ↦
        let (key, p, _) = T.at_sound T.new path idx found in
        absurd (subst (λ l. In (key, idx) l) T.entries-new p)
  ]

  -- A route of the table that a request's method and path select.
  pub record Selected (inner : RouterInner matches T U H) (m : Method) (path : List ℕ) (i : ℕ)
      : Type 0 where
    pub route : RouteEntry H
    pub found : get_elem? inner.routes i ≡ some route
    pub same_bucket : method_bit route.method ≡ method_bit m
    pub accepted : route.match_fn (segments path) ≡ true

  accepted_of_accepts :
      (routes : List (RouteEntry H)) (segs : List (List ℕ)) (i : ℕ) (e : RouteEntry H)
      → get_elem? routes i ≡ some e
      → accepts matches T U H routes segs i ≡ true
      → e.match_fn segs ≡ true
  accepted_of_accepts routes segs i e found a = rw (found, accepts) at a

  Selected-of_Registered :
      (inner : RouterInner matches T U H) (m : Method) (path key : List ℕ) (i : ℕ)
      → Registered matches T U H inner.routes m key i
      → accepts matches T U H inner.routes (segments path) i ≡ true
      → Selected inner m path i
  Selected-of_Registered inner m path key i r a = record {
    route = r.route;
    found = r.found;
    same_bucket = r.same_bucket;
    accepted = accepted_of_accepts inner.routes (segments path) i r.route r.found a;
  }

  pub lookup-Selected :
      (inner : RouterInner matches T U H) (m : Method) (path : List ℕ) (i : ℕ)
      → IsValid matches T U H inner
      → lookup inner m path ≡ some i
      → Selected inner m path i
  lookup-Selected inner m path i v e =
      let b : MethodBucket matches T U H = bucket inner.method_index m in
      let (a, place) = lookup_in_bucket_sound b inner.routes path i e in
      let h = v.holds m in
      elim place [
        | inl found ↦
            let (key, p, _) = T.at_sound b.trie path i found in
            Selected-of_Registered inner m path key i (h.indexed key i p) a
        | inr q ↦ let (key, r) = h.fallen i q in Selected-of_Registered inner m path key i r a
      ]

  -- The match functions accept no path but those of their pattern's shape.
  abbrev pub Shaped : List (RouteEntry H) → List ℕ → Type 0
  Shaped routes path =
      (e : RouteEntry H)
      → In e routes
      → e.match_fn (segments path) ≡ true
      → matches (to_matchit_pattern e.pattern) path ≡ true

  -- Where the unified trie knows no such shape, no bucket finds a route.
  lookup_of_no_shape :
      (inner : RouterInner matches T U H) (m : Method) (path : List ℕ)
      → IsValid matches T U H inner
      → Shaped inner.routes path
      → inner.any_method_has_fallback ≡ false
      → U.at inner.any_method_trie path ≡ none
      → lookup inner m path ≡ none
  lookup_of_no_shape inner m path v shaped clean missed =
      elim (Option-cases (lookup inner m path)) [
        | inl e ↦ e
        | inr (i, e) ↦
            let s = lookup-Selected inner m path i v e in
            let member = get_elem?-In inner.routes i s.route s.found in
            let yes_shape = shaped s.route member s.accepted in
            let no_shape =
              U.at_complete inner.any_method_trie path (to_matchit_pattern s.route.pattern) tt
                missed (v.mirrors.mirrored s.route member clean) in
            cc
      ]

  -- Where the method's bit is the only one, no other bucket finds a route.
  lookup_of_single :
      (inner : RouterInner matches T U H) (m n : Method) (path : List ℕ)
      → IsValid matches T U H inner
      → lookup inner n path ≡ none
      → inner.methods_present ≡ method_bit n
      → lookup inner m path ≡ none
  lookup_of_single inner m n path v missed only = elim (ℕ_discrete (method_bit m) (method_bit n)) [
    | yes same ↦ rw (bucket_of_bit inner.method_index m n same) missed
    | no ne ↦ rw (v.masks.single n only m ne) (lookup_empty inner.routes path)
  ]

  -- The search without shortcuts: the method's bucket, and on a miss every bucket.
  unfoldable pub plain_resolve :
      RouterInner matches T U H → Method → List ℕ → LookupOutcome matches T U H
  plain_resolve inner method path = elim (lookup inner method path) [
    | some i ↦ hit i
    | none ↦
        if any (λ b. is_some (lookup_in_bucket matches T U H b inner.routes path))
          (all_buckets inner.method_index)
        then method_not_allowed
        else not_found
  ]

  abbrev pub any_lookup : RouterInner matches T U H → List ℕ → Bool
  any_lookup inner path =
      any (λ b. is_some (lookup_in_bucket matches T U H b inner.routes path))
        (all_buckets inner.method_index)

  none_found :
      (inner : RouterInner matches T U H) (path : List ℕ)
      → ((m : Method) → lookup inner m path ≡ none)
      → any_lookup inner path ≡ false
  none_found inner path h =
      any_buckets (λ b. is_some (lookup_in_bucket matches T U H b inner.routes path))
        inner.method_index (λ m. ap is_some (h m))

  resolve_miss-plain :
      (inner : RouterInner matches T U H) (method : Method) (path : List ℕ)
      → IsValid matches T U H inner
      → Shaped inner.routes path
      → lookup inner method path ≡ none
      → resolve_miss matches T U H inner method path
        ≡ (if any_lookup inner path then method_not_allowed else not_found)
  unfolding resolve_miss
  resolve_miss-plain inner method path v shaped missed =
      elim (ℕ_discrete inner.methods_present (method_bit method)) [
        | yes only ↦
            rw
              (
                eq→== inner.methods_present (method_bit method) only,
                none_found inner path (λ m. lookup_of_single inner m method path v missed only),
              )
              refl
        | no ne ↦
            rw (ne→== inner.methods_present (method_bit method) ne)
              (elim (Bool-cases inner.any_method_has_fallback) [
                | inl conflict ↦ rw conflict refl
                | inr clean ↦ elim (Option-cases (U.at inner.any_method_trie path)) [
                  | inl none_at ↦
                      rw
                        (
                          clean,
                          none_at,
                          none_found inner path
                              (λ m. lookup_of_no_shape inner m path v shaped clean none_at),
                        )
                        refl
                  | inr (u, some_at) ↦ rw (clean, some_at) refl
                ]
              ])
      ]

  resolve-plain_resolve :
      (inner : RouterInner matches T U H) (method : Method) (path : List ℕ)
      → IsValid matches T U H inner
      → Shaped inner.routes path
      → resolve matches T U H inner method path ≡ plain_resolve inner method path
  unfolding resolve plain_resolve
  resolve-plain_resolve inner method path v shaped =
      elim (Option-cases (lookup inner method path)) [
        | inr (i, e) ↦ rw (e, resolve, plain_resolve) refl
        | inl missed ↦
            rw (missed, resolve, plain_resolve)
              (resolve_miss-plain inner method path v shaped missed)
      ]

  -- Whatever routes were registered, resolution with its shortcuts for a miss (the bitmap of methods and
  -- the trie of all shapes) gives what the search without them gives, where match functions accept
  -- only paths of their pattern's shape.
  pub resolve-build-plain_resolve :
      (es : List (RouteEntry H)) (method : Method) (path : List ℕ)
      → Shaped es path
      → resolve matches T U H (build matches T U H es) method path
        ≡ plain_resolve (build matches T U H es) method path
  resolve-build-plain_resolve es method path shaped =
      resolve-plain_resolve (build matches T U H es) method path (build-IsValid matches T U H es)
        (rw (build-routes matches T U H es) shaped)

-- ===== src/Router/Table.antt =====
-- The routing table of router.rs: `add_route` and `resolve`. A path is the list of its bytes.
pub mod Mask
pub mod Invariant
pub mod Build
pub mod Refines
pub mod Selects
use typeway.Base.{
  ℕ, suc, ◌+◌, Bool, true, false, not, ◌&&◌, ◌||◌, List, [], ◌∷◌, ◌++◌, Option, none, some, length,
  get_elem?, any, find, ◌==◌, bit_or, if◌then◌else◌,
}
use typeway.Router.Matchit.{Matchit}
use typeway.Base.Options.{◌>>=◌}
use typeway.Router.Method.{
  method_eq, Method, MethodIndex, bucket, set_bucket, all_buckets, method_bit,
}
use typeway.Router.Pattern.{bytes_eq, segments, to_matchit_pattern}

-- `H` is the type of handlers.
pub record RouteEntry (H : Type 0) : Type 0 where
  pub method : Method
  pub pattern : List ℕ
  pub match_fn : List (List ℕ) → Bool
  pub handler : H

-- The handler of the first route with a method and a pattern.
unfoldable pub find_handler_by_pattern :
    {H : Type 0} → List (RouteEntry H) → Method → List ℕ → Option H
unfolding method_eq
find_handler_by_pattern routes method pattern =
    find (λ e. method_eq e.method method && bytes_eq e.pattern pattern) routes >>= λ e.
    some e.handler

abbrev pub is_some {ℓ} : {A : Type ℓ} → Option A → Bool
is_some none = false
is_some (some a) = true

abbrev pub contains : List ℕ → List (List ℕ) → Bool
contains key = any (bytes_eq key)

module _ (matches : List ℕ → List ℕ → Bool) (T : Matchit matches ℕ) (U : Matchit matches (Unit {0}))
    (H : Type 0) where
  pub record MethodBucket : Type 0 where
    pub trie : T.Trie
    pub fallback : List ℕ

  -- The part of `RouterInner` that registration and resolution read and write.
  pub record RouterInner : Type 0 where
    pub routes : List (RouteEntry H)
    pub method_index : MethodIndex MethodBucket
    pub any_method_trie : U.Trie
    pub any_method_seen : List (List ℕ)
    pub any_method_has_fallback : Bool
    pub methods_present : ℕ

  abbrev pub empty_bucket : MethodBucket
  empty_bucket = record { trie = T.new; fallback = [] }

  abbrev pub new : RouterInner
  new = record {
    routes = [];
    method_index = record {
      get = empty_bucket;
      post = empty_bucket;
      put = empty_bucket;
      delete = empty_bucket;
      patch = empty_bucket;
      head = empty_bucket;
      options = empty_bucket;
      other = empty_bucket;
    };
    any_method_trie = U.new;
    any_method_seen = [];
    any_method_has_fallback = false;
    methods_present = 0;
  }

  -- The insertion into the bucket's trie, or else into its fallback.
  unfoldable pub add_to_bucket : List ℕ → ℕ → MethodBucket → MethodBucket
  add_to_bucket key idx b = elim (T.insert key idx b.trie) [
    | some trie ↦ record b { trie = trie }
    | none ↦ record b { fallback = b.fallback ++ idx ∷ [] }
  ]

  -- The unified trie, the patterns seen, and whether a pattern conflicted.
  pub record Shapes : Type 0 where
    pub trie : U.Trie
    pub seen : List (List ℕ)
    pub has_fallback : Bool

  unfoldable pub add_shape : List ℕ → Shapes → Shapes
  add_shape key s = if contains key s.seen then s else elim (U.insert key tt s.trie) [
    | some trie ↦ record s { trie = trie; seen = key ∷ s.seen }
    | none ↦ record s { seen = key ∷ s.seen; has_fallback = true }
  ]

  abbrev pub shapes : RouterInner → Shapes
  shapes inner = record {
    trie = inner.any_method_trie;
    seen = inner.any_method_seen;
    has_fallback = inner.any_method_has_fallback;
  }

  unfoldable pub add_route : RouteEntry H → RouterInner → RouterInner
  add_route e inner =
      let idx = length inner.routes in
      let key = to_matchit_pattern e.pattern in
      let added = add_shape key (shapes inner) in
      record {
        routes = inner.routes ++ e ∷ [];
        method_index =
            set_bucket inner.method_index e.method
              (add_to_bucket key idx (bucket inner.method_index e.method));
        any_method_trie = added.trie;
        any_method_seen = added.seen;
        any_method_has_fallback = added.has_fallback;
        methods_present = bit_or inner.methods_present (method_bit e.method);
      }

  -- `(routes[i].match_fn)(segs)`. An index past the end would panic; no bucket holds one.
  abbrev pub accepts : List (RouteEntry H) → List (List ℕ) → ℕ → Bool
  accepts routes segs i = elim (get_elem? routes i) [ none ↦ false | some e ↦ e.match_fn segs ]

  abbrev pub scan_fallback : MethodBucket → List (RouteEntry H) → List (List ℕ) → Option ℕ
  scan_fallback b routes segs = find (accepts routes segs) b.fallback

  unfoldable pub lookup_in_bucket : MethodBucket → List (RouteEntry H) → List ℕ → Option ℕ
  lookup_in_bucket b routes path = elim (T.at b.trie path) [
    | some idx ↦
        if accepts routes (segments path) idx
        then some idx
        else scan_fallback b routes (segments path)
    | none ↦ scan_fallback b routes (segments path)
  ]

  pub data LookupOutcome : Type 0 where
    hit : ℕ → LookupOutcome
    method_not_allowed not_found : LookupOutcome

  unfoldable pub resolve_miss : RouterInner → Method → List ℕ → LookupOutcome
  resolve_miss inner method path =
      let any_path_shape =
        inner.any_method_has_fallback || is_some (U.at inner.any_method_trie path) in
      let path_matched =
        any_path_shape
        && any (λ b. is_some (lookup_in_bucket b inner.routes path))
            (all_buckets inner.method_index) in
      if inner.methods_present == method_bit method
      then not_found
      else if path_matched
      then method_not_allowed
      else not_found

  unfoldable pub resolve : RouterInner → Method → List ℕ → LookupOutcome
  resolve inner method path =
      elim (lookup_in_bucket (bucket inner.method_index method) inner.routes path) [
        | some i ↦ hit i
        | none ↦ resolve_miss inner method path
      ]

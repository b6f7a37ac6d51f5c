-- ===== src/Router/Tests.antt =====
-- A small trie for the router's interface, runs of the router over it, and the theorems at concrete
-- inputs.
use typeway.Base.{
  ℕ, ◌≡◌, inl, inr, refl, sym, ap, Bool, true, false, ◌&&◌, List, [], ◌∷◌, ◌++◌, Option, none, some,
  length, In, Bool-cases, if◌then◌else◌, ltb, ◌==◌, arith, get_elem?, ◌≤◌, ◌≢◌,
}
use typeway.Router.Matchit.{Matchit}
use typeway.Router.Method.{Method, method_bit, bucket, set_bucket}
use typeway.Router.Pattern.{bytes_eq, segments, to_matchit_pattern}
use typeway.Router.Pattern.Renders.{lit, typed, render}
use typeway.Router.Prefix.{strip_prefix, set_prefix}
use typeway.Router.Table.{
  RouteEntry, RouterInner, hit, method_not_allowed, not_found, new, add_to_bucket, add_shape,
  add_route, lookup_in_bucket, resolve_miss, resolve,
}
use typeway.Router.Table.Invariant.{IsValid, new-IsValid, add_route-IsValid}
use typeway.Router.Table.Build.{build}
use typeway.Router.Table.Refines.{Shaped, lookup, plain_resolve, resolve-build-plain_resolve}
use typeway.Router.Table.Selects.{RouteOf, resolve-build-hit, resolve-build-method_not_allowed}
use typeway.Router.Request.{Call, handled, Router, collect_body_limited, route}
use typeway.Router.Request.Limits.{route-handled}

-- A segment that is a capture stands for any segment.
abbrev covers : List ℕ → List ℕ → Bool
covers [] seg = bytes_eq [] seg
covers (c ∷ part) seg = if c == b'{' then true else bytes_eq (c ∷ part) seg

abbrev cover_all : List (List ℕ) → List (List ℕ) → Bool
cover_all [] [] = true
cover_all (p ∷ ps) (s ∷ segs) = covers p s && cover_all ps segs
cover_all _ _ = false

abbrev shape : List ℕ → List ℕ → Bool
shape pattern path = cover_all (segments pattern) (segments path)

module _ {A : Type 0} where
  abbrev first_at : List (List ℕ × A) → List ℕ → Option A
  first_at [] path = none
  first_at (e ∷ es) path = if shape e.0 path then some e.1 else first_at es path

  abbrev insert_new : List ℕ → A → List (List ℕ × A) → Option (List (List ℕ × A))
  insert_new pattern a t = elim (first_at t pattern) [
    | none ↦ some ((pattern, a) ∷ t)
    | some _ ↦ none
  ]

  insert_new-cons :
      (pattern : List ℕ) (a : A) (t t' : List (List ℕ × A))
      → insert_new pattern a t ≡ some t'
      → t' ≡ (pattern, a) ∷ t
  insert_new-cons pattern a t t' e = ground arith

  first_at_sound :
      (t : List (List ℕ × A)) (path : List ℕ) (a : A)
      → first_at t path ≡ some a
      → (pattern : List ℕ) × In (pattern, a) t × (shape pattern path ≡ true)
  first_at_sound [] path a e = cc
  first_at_sound (x ∷ t) path a e = elim (Bool-cases (shape x.0 path)) [
    | inl yes_shape ↦
        let q : ◌≡◌ {A = Option A} (some x.1) (some a) = rw yes_shape at e in
        let same : x.1 ≡ a = cc in (x.0, inl (ap (λ y. (x.0, y)) (sym same)), yes_shape)
    | inr no_shape ↦ let (p, m, h) = first_at_sound t path a (rw no_shape at e) in (p, inr m, h)
  ]

  first_at_complete :
      (t : List (List ℕ × A)) (path pattern : List ℕ) (a : A)
      → first_at t path ≡ none
      → In (pattern, a) t
      → shape pattern path ≡ false
  first_at_complete [] path pattern a e m = elim m [ ]
  first_at_complete (x ∷ t) path pattern a e m = elim (Bool-cases (shape x.0 path)) [
    | inl yes_shape ↦ let q : ◌≡◌ {A = Option A} (some x.1) none = rw yes_shape at e in cc
    | inr no_shape ↦ elim m [
      | inl q ↦ rw (ap (λ y. y.0) q) no_shape
      | inr q ↦ first_at_complete t path pattern a (rw no_shape at e) q
    ]
  ]

  abbrev list_trie : Matchit shape A
  list_trie = record {
    Trie = List (List ℕ × A);
    new = [];
    insert = insert_new;
    at = first_at;
    entries = λ t. t;
    entries-new = refl;
    entries-insert = insert_new-cons;
    at_sound = first_at_sound;
    at_complete = first_at_complete;
  }

-- Two routes: `GET /users/{}` and `POST /users`.
abbrev users : List ℕ
users = b'u' ∷ b's' ∷ b'e' ∷ b'r' ∷ b's' ∷ []

abbrev user_pattern : List ℕ
user_pattern = render (lit users ∷ typed ∷ [])

abbrev users_path : List ℕ
users_path = b'/' ∷ users

abbrev user_path : List ℕ
user_path = users_path ++ b'/' ∷ b'7' ∷ []

abbrev numeric : List ℕ → Bool
numeric [] = true
numeric (c ∷ seg) = ltb c b':' && numeric seg

abbrev accepts_user : List (List ℕ) → Bool
accepts_user (a ∷ id ∷ []) = bytes_eq users a && numeric id
accepts_user _ = false

abbrev accepts_users : List (List ℕ) → Bool
accepts_users (a ∷ []) = bytes_eq users a
accepts_users _ = false

abbrev get_user : RouteEntry ℕ
get_user = record {
  method = Method.get;
  pattern = user_pattern;
  match_fn = accepts_user;
  handler = 1;
}

abbrev post_user : RouteEntry ℕ
post_user = record {
  method = Method.post;
  pattern = users_path;
  match_fn = accepts_users;
  handler = 2;
}

abbrev two_routes : List (RouteEntry ℕ)
two_routes = get_user ∷ post_user ∷ []

abbrev table : RouterInner shape list_trie list_trie ℕ
table = build shape list_trie list_trie ℕ two_routes

abbrev service : Router shape list_trie list_trie ℕ
service = record {
  inner = table;
  has_injector = true;
  has_fallback = false;
  max_body_size = 4;
  prefix_str = some (b'/' ∷ b'v' ∷ []);
}

pattern_numbered :
    to_matchit_pattern user_pattern ≡ users_path ++ b'/' ∷ b'{' ∷ b'p' ∷ b'0' ∷ b'}' ∷ []
unfolding to_matchit_pattern
pattern_numbered = refl

finds_user : resolve shape list_trie list_trie ℕ table Method.get user_path ≡ hit 0
unfolding resolve build lookup_in_bucket to_matchit_pattern segments bucket add_route set_bucket
    add_to_bucket
finds_user = refl

refuses_method : resolve shape list_trie list_trie ℕ table Method.put user_path ≡ method_not_allowed
unfolding resolve resolve_miss build lookup_in_bucket to_matchit_pattern segments bucket add_route
    set_bucket method_bit add_shape add_to_bucket
refuses_method = refl

two_routes-Shaped : Shaped shape list_trie list_trie ℕ two_routes user_path
unfolding to_matchit_pattern segments
two_routes-Shaped e (inl q) ok = rw q refl
two_routes-Shaped e (inr (inl q)) ok = let wrong : ◌≡◌ {A = Bool} false true = rw q at ok in cc
two_routes-Shaped e (inr (inr q)) ok = elim q [ ]

resolve-build-plain_resolve_example :
    resolve shape list_trie list_trie ℕ table Method.put user_path
    ≡ plain_resolve shape list_trie list_trie ℕ table Method.put user_path
resolve-build-plain_resolve_example =
    resolve-build-plain_resolve shape list_trie list_trie ℕ two_routes Method.put user_path
      two_routes-Shaped

resolve-build-hit_example : RouteOf shape list_trie list_trie ℕ two_routes Method.get user_path 0
resolve-build-hit_example =
    resolve-build-hit shape list_trie list_trie ℕ two_routes Method.get user_path 0 finds_user

resolve-build-method_not_allowed_example :
    (lookup shape list_trie list_trie ℕ table Method.put user_path ≡ none)
    × ((m : Method) × (i : ℕ) × (method_bit m ≢ method_bit Method.put)
        × RouteOf shape list_trie list_trie ℕ two_routes m user_path i)
resolve-build-method_not_allowed_example =
    resolve-build-method_not_allowed shape list_trie list_trie ℕ two_routes Method.put user_path
      refuses_method

add_route-IsValid_example :
    IsValid shape list_trie list_trie ℕ
      (add_route shape list_trie list_trie ℕ get_user (new shape list_trie list_trie ℕ))
add_route-IsValid_example =
    add_route-IsValid shape list_trie list_trie ℕ get_user (new shape list_trie list_trie ℕ)
      (new-IsValid shape list_trie list_trie ℕ)

strips_version : strip_prefix (some (b'/' ∷ b'v' ∷ [])) (b'/' ∷ b'v' ∷ user_path) ≡ some user_path
unfolding strip_prefix
strips_version = refl

normal_prefix : set_prefix (b'v' ∷ b'/' ∷ []) none ≡ some (b'/' ∷ b'v' ∷ [])
unfolding set_prefix
normal_prefix = refl

abbrev user_call : Call
user_call = record { index = 0; prefix_offset = some 2; injected = true; body = 5 ∷ [] }

calls_user :
    route shape list_trie list_trie ℕ service Method.get (b'/' ∷ b'v' ∷ user_path) (some (5 ∷ []))
    ≡ handled user_call
unfolding route collect_body_limited resolve build lookup_in_bucket to_matchit_pattern segments
    bucket add_route set_bucket add_to_bucket strip_prefix
calls_user = refl

route-handled_example :
    (length user_call.body ≤ 4)
    × (◌≡◌ {A = Option (List ℕ)} (some (5 ∷ [])) (some (5 ∷ [])))
    × ((lookup_path : List ℕ) × (strip_prefix (some (b'/' ∷ b'v' ∷ [])) (b'/' ∷ b'v' ∷ user_path)
          ≡ some lookup_path)
        × (resolve shape list_trie list_trie ℕ table Method.get lookup_path ≡ hit 0))
route-handled_example =
    route-handled shape list_trie list_trie ℕ service Method.get (b'/' ∷ b'v' ∷ user_path)
      (some (5 ∷ [])) user_call calls_user

-- `GET /{}/me`, whose shape overlaps that of `GET /users/{}`: its match function accepts `/users/me`.
abbrev get_me : RouteEntry ℕ
get_me = record {
  method = Method.get;
  pattern = render (typed ∷ lit (b'm' ∷ b'e' ∷ []) ∷ []);
  match_fn =
      λ segs. elim (get_elem? segs 1) [ none ↦ false | some seg ↦ bytes_eq (b'm' ∷ b'e' ∷ []) seg ];
  handler = 3;
}

abbrev me_path : List ℕ
me_path = users_path ++ b'/' ∷ b'm' ∷ b'e' ∷ []

me_accepted : get_me.match_fn (segments me_path) ≡ true
unfolding segments
me_accepted = refl

-- The trie's candidate is refused by its match function, and no other route of the trie is tried.
overlap_missed :
    resolve shape list_trie list_trie ℕ
      (build shape list_trie list_trie ℕ (get_me ∷ get_user ∷ []))
      Method.get
      me_path
    ≡ not_found
unfolding resolve resolve_miss build lookup_in_bucket to_matchit_pattern segments bucket add_route
    set_bucket method_bit add_shape add_to_bucket
overlap_missed = refl

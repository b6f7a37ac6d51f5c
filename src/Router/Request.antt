-- ===== src/Router/Request.antt =====
-- `Router::route` and `route_with_bytes` of router.rs. A response is what the router decided: the
-- handler's own answer, the fallback's, or a status of the router.
pub mod Limits
use typeway.Base.{ℕ, Bool, List, Option, none, some, length, ltb, if◌then◌else◌}
use typeway.Router.Matchit.{Matchit}
use typeway.Router.Method.{Method}
use typeway.Router.Prefix.{strip_prefix}
use typeway.Router.Table.{RouterInner, LookupOutcome, hit, method_not_allowed, not_found, resolve}

-- The call of the handler at an index: the length of the prefix that `Path` skips, whether the state
-- injector ran, and the collected body.
pub record Call : Type 0 where
  pub index : ℕ
  pub prefix_offset : Option ℕ
  pub injected : Bool
  pub body : List ℕ

pub data Response : Type 0 where
  handled : Call → Response
  fell_back : Response
  status : ℕ → Response

module _ (matches : List ℕ → List ℕ → Bool) (T : Matchit matches ℕ) (U : Matchit matches (Unit {0}))
    (H : Type 0) where
  pub record Router : Type 0 where
    pub inner : RouterInner matches T U H
    pub has_injector : Bool
    pub has_fallback : Bool
    pub max_body_size : ℕ
    pub prefix_str : Option (List ℕ)

  abbrev pub prefix_len : Option (List ℕ) → Option ℕ
  prefix_len none = none
  prefix_len (some prefix) = some (length prefix)

  -- `collect_body_limited`; `none` is a body that could not be read.
  unfoldable pub collect_body_limited : Option (List ℕ) → ℕ → Option (List ℕ)
  collect_body_limited none max = none
  collect_body_limited (some bytes) max = if ltb max (length bytes) then none else some bytes

  abbrev pub miss : Router → Response
  miss r = if r.has_fallback then fell_back else status 404

  abbrev pub call : Router → ℕ → List ℕ → Response
  call r i bytes = handled (record {
    index = i;
    prefix_offset = prefix_len r.prefix_str;
    injected = r.has_injector;
    body = bytes;
  })

  abbrev pub answer : Router → ℕ → Option (List ℕ) → Response
  answer r i none = status 413
  answer r i (some bytes) = call r i bytes

  abbrev pub dispatch : Router → LookupOutcome matches T U H → Option (List ℕ) → Response
  dispatch r (hit i) body = answer r i (collect_body_limited body r.max_body_size)
  dispatch r method_not_allowed body = status 405
  dispatch r not_found body = miss r

  unfoldable pub route : Router → Method → List ℕ → Option (List ℕ) → Response
  route r method path body = elim (strip_prefix r.prefix_str path) [
    | none ↦ miss r
    | some lookup_path ↦ dispatch r (resolve matches T U H r.inner method lookup_path) body
  ]

  abbrev pub dispatch_bytes : Router → LookupOutcome matches T U H → List ℕ → Response
  dispatch_bytes r (hit i) bytes = call r i bytes
  dispatch_bytes r method_not_allowed bytes = status 405
  dispatch_bytes r not_found bytes = status 404

  unfoldable pub route_with_bytes : Router → Method → List ℕ → List ℕ → Response
  route_with_bytes r method path bytes = elim (strip_prefix r.prefix_str path) [
    | none ↦ status 404
    | some lookup_path ↦ dispatch_bytes r (resolve matches T U H r.inner method lookup_path) bytes
  ]

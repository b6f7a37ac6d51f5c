-- ===== src/Session/Channel.antt =====
-- The typed WebSocket of typeway-server/src/typed_ws.rs. The protocol state is the index of the type
-- `TypedWebSocket`, as it is the parameter of the Rust type. `serde_json` and the WebSocket crate are
-- interfaces.
use Prim.Native.String.{String}
use package.text.Mathlib.Text.{starts_with}
use typeway.Base.{Bool, ◌||◌, List, [], ◌∷◌, Option, none, some, if◌then◌else◌}
use typeway.Session.{SessionType, send, recv, offer, select, end, var, rec}

-- `serde_json`, with the implementations of the values' types.
pub record Serde (M : Type 0) : Type 1 where
  pub Val : M → Type 0
  pub to_string : (t : M) → Val t → Option String
  pub from_str : (t : M) → String → Option (Val t)

-- A frame as `is_text` and `is_close` sort it. A text frame has its text, so the source's error
-- `Protocol` is never reached.
pub data Message : Type 0 where
  text : String → Message
  close other : Message

-- The sending half of the stream; `none` is a transport error.
pub record Transport : Type 1 where
  pub Sink : Type 0
  pub send : Message → Sink → Option Sink
  pub close : Sink → Option Sink

-- The errors, without the causes that they carry.
pub data WebSocketError : Type 0 where
  transport serialize deserialize protocol closed : WebSocketError

pub data Result {ℓ} (A : Type ℓ) : Type ℓ where
  ok : A → Result A
  err : WebSocketError → Result A

-- `str::contains`
unfoldable pub contains : String → String → Bool
contains String.[] part = starts_with "" part
contains (String.◌∷◌ c s) part = starts_with (String.◌∷◌ c s) part || contains s part

-- What `next()` yields one after the other; `none` is a transport error.
abbrev pub Incoming : Type 0
Incoming = List (Option Message)

pub data Either (L R : Type 0) : Type 0 where
  left : L → Either L R
  right : R → Either L R

-- The first text, and what is left of the stream behind it: the loop of `recv` and of `offer`.
unfoldable pub next_text : Incoming → Result (String × Incoming)
next_text [] = err closed
next_text (some (text s) ∷ rest) = ok (s, rest)
next_text (some close ∷ rest) = err closed
next_text (some other ∷ rest) = next_text rest
next_text (none ∷ rest) = err transport

module _ {M : Type 0} (S : Serde M) (W : Transport) where
  pub record TypedWebSocket (s : SessionType M) : Type 0 where
    pub incoming : Incoming
    pub sink : W.Sink

  -- The same stream in another state.
  abbrev pub into : (s : SessionType M) → Incoming → W.Sink → TypedWebSocket s
  into s incoming sink = record { incoming = incoming; sink = sink }

  abbrev pub push :
      {s : SessionType M} (next : SessionType M)
      → TypedWebSocket s
      → Message
      → Result (TypedWebSocket next)
  push next ws m = elim (W.send m ws.sink) [
    | some sink ↦ ok (into next ws.incoming sink)
    | none ↦ err transport
  ]

  unfoldable pub ws_send :
      {t : M} {next : SessionType M}
      → TypedWebSocket (send t next)
      → S.Val t
      → Result (TypedWebSocket next)
  ws_send {t} {next} ws msg = elim (S.to_string t msg) [
    | some json ↦ push next ws (text json)
    | none ↦ err serialize
  ]

  abbrev pub read :
      (t : M) (next : SessionType M)
      → W.Sink
      → Result (String × Incoming)
      → Result (S.Val t × TypedWebSocket next)
  read t next sink (err e) = err e
  read t next sink (ok (s, rest)) = elim (S.from_str t s) [
    | some v ↦ ok (v, into next rest sink)
    | none ↦ err deserialize
  ]

  unfoldable pub ws_recv :
      {t : M} {next : SessionType M}
      → TypedWebSocket (recv t next)
      → Result (S.Val t × TypedWebSocket next)
  unfolding next_text
  ws_recv {t} {next} ws = read t next ws.sink (next_text ws.incoming)

  unfoldable pub ws_close : TypedWebSocket end → Result (Unit {0})
  ws_close ws = elim (W.close ws.sink) [ some _ ↦ ok tt | none ↦ err transport ]

  abbrev pub branch :
      (l r : SessionType M)
      → W.Sink
      → Result (String × Incoming)
      → Result (Either (TypedWebSocket l) (TypedWebSocket r))
  branch l r sink (err e) = err e
  branch l r sink (ok (s, rest)) =
      if contains s "\"branch\":\"L\"" || contains s "\"branch\":\"left\""
      then ok (left (into l rest sink))
      else ok (right (into r rest sink))

  unfoldable pub ws_offer :
      {l r : SessionType M}
      → TypedWebSocket (offer l r)
      → Result (Either (TypedWebSocket l) (TypedWebSocket r))
  unfolding next_text contains
  ws_offer {l} {r} ws = branch l r ws.sink (next_text ws.incoming)

  unfoldable pub ws_select_left :
      {l r : SessionType M} → TypedWebSocket (select l r) → Result (TypedWebSocket l)
  ws_select_left {l} {r} ws = push l ws (text "{\"branch\":\"L\"}")

  unfoldable pub ws_select_right :
      {l r : SessionType M} → TypedWebSocket (select l r) → Result (TypedWebSocket r)
  ws_select_right {l} {r} ws = push r ws (text "{\"branch\":\"R\"}")

  abbrev pub ws_enter : {b : SessionType M} → TypedWebSocket (rec b) → TypedWebSocket b
  ws_enter {b} ws = into b ws.incoming ws.sink

  -- The caller names the body: the state does not carry it.
  abbrev pub ws_recurse : (b : SessionType M) → TypedWebSocket var → TypedWebSocket (rec b)
  ws_recurse b ws = into (rec b) ws.incoming ws.sink

-- ===== src/Session/Peers.antt =====
-- What one peer sends is what the other, in the dual state, receives.
use Prim.Native.String.{String}
use typeway.Base.{◌≡◌, refl, ap, ◌∙◌, [], ◌∷◌, ◌++◌, some, All, Option-cases, inl, inr}
use typeway.Session.{SessionType, send, recv, offer, select, dual}
use typeway.Session.Channel.{
  Serde, Transport, Message, text, other, Result, ok, err, serialize, transport, Incoming, left,
  right, contains, next_text, TypedWebSocket, into, push, branch, read, ws_send, ws_recv, ws_offer,
  ws_select_left, ws_select_right,
}

-- Frames without text, such as pings, are skipped.
abbrev pub IsSkipped : Incoming → Type 0
IsSkipped = All (λ m. m ≡ some other)

next_text_skips :
    (skipped rest : Incoming) (s : String)
    → IsSkipped skipped
    → next_text (skipped ++ some (text s) ∷ rest) ≡ ok (s, rest)
unfolding next_text
next_text_skips [] rest s h = refl
next_text_skips (m ∷ skipped) rest s (p, h) = rw p (next_text_skips skipped rest s h)

module _ {M : Type 0} (S : Serde M) (W : Transport) where
  -- What a successful push says of the sink.
  push_ok :
      {s : SessionType M} (next : SessionType M) (ws : TypedWebSocket S W s)
      (ws' : TypedWebSocket S W next) (m : Message)
      → push S W next ws m ≡ ok ws'
      → W.send m ws.sink ≡ some ws'.sink
  push_ok next ws ws' m e = elim (Option-cases (W.send m ws.sink)) [
    | inl failed ↦
        let q : ◌≡◌ {A = Result (TypedWebSocket S W next)} (err transport) (ok ws') =
          rw (failed, push) at e in
        cc
    | inr (k, sent) ↦
        let q : ◌≡◌ {A = Result (TypedWebSocket S W next)} (ok (into S W next ws.incoming k))
            (ok ws') =
          rw (sent, push) at e in
        let same : into S W next ws.incoming k ≡ ws' = cc in sent ∙ ap (λ w. some w.sink) same
  ]

  -- A value that was sent, and whose text is read as that value, is received in the dual state, whatever
  -- pings and other frames come before it that have no text and do not close the connection.
  pub ws_recv-ws_send :
      {t : M} {next : SessionType M} (ws : TypedWebSocket S W (send t next)) (msg : S.Val t)
      (ws' : TypedWebSocket S W next) (skipped rest : Incoming) (sink : W.Sink)
      → ((json : String) → S.to_string t msg ≡ some json → S.from_str t json ≡ some msg)
      → ws_send S W ws msg ≡ ok ws'
      → IsSkipped skipped
      → (json : String) × (W.send (text json) ws.sink ≡ some ws'.sink)
        × (ws_recv S W (into S W (recv t (dual next)) (skipped ++ some (text json) ∷ rest) sink)
            ≡ ok (msg, into S W (dual next) rest sink))
  unfolding ws_send ws_recv
  ws_recv-ws_send {t} {next} ws msg ws' skipped rest sink reads e h =
      elim (Option-cases (S.to_string t msg)) [
        | inl failed ↦
            let q : ◌≡◌ {A = Result (TypedWebSocket S W next)} (err serialize) (ok ws') =
              rw (failed, ws_send) at e in
            cc
        | inr (json, written) ↦ (
          json,
          push_ok next ws ws' (text json) (rw (written, ws_send) at e),
          rw (next_text_skips skipped rest json h, reads json written, read) refl,
        )
      ]

  -- The peer in the dual state follows the left branch where the left one was selected.
  pub ws_offer-ws_select_left :
      {l r : SessionType M} (ws : TypedWebSocket S W (select l r)) (ws' : TypedWebSocket S W l)
      (skipped rest : Incoming) (sink : W.Sink)
      → ws_select_left S W ws ≡ ok ws'
      → IsSkipped skipped
      → (s : String) × (W.send (text s) ws.sink ≡ some ws'.sink)
        × (ws_offer S W (into S W (offer (dual l) (dual r)) (skipped ++ some (text s) ∷ rest) sink)
            ≡ ok (left (into S W (dual l) rest sink)))
  unfolding ws_select_left ws_offer contains
  ws_offer-ws_select_left {l} {r} ws ws' skipped rest sink e h = (
    "{\"branch\":\"L\"}",
    push_ok l ws ws' (text "{\"branch\":\"L\"}") e,
    ap (branch S W (dual l) (dual r) sink) (next_text_skips skipped rest "{\"branch\":\"L\"}" h),
  )

  -- The peer in the dual state follows the right branch where the right one was selected.
  pub ws_offer-ws_select_right :
      {l r : SessionType M} (ws : TypedWebSocket S W (select l r)) (ws' : TypedWebSocket S W r)
      (skipped rest : Incoming) (sink : W.Sink)
      → ws_select_right S W ws ≡ ok ws'
      → IsSkipped skipped
      → (s : String) × (W.send (text s) ws.sink ≡ some ws'.sink)
        × (ws_offer S W (into S W (offer (dual l) (dual r)) (skipped ++ some (text s) ∷ rest) sink)
            ≡ ok (right (into S W (dual r) rest sink)))
  unfolding ws_select_right ws_offer contains
  ws_offer-ws_select_right {l} {r} ws ws' skipped rest sink e h = (
    "{\"branch\":\"R\"}",
    push_ok r ws ws' (text "{\"branch\":\"R\"}") e,
    ap (branch S W (dual l) (dual r) sink) (next_text_skips skipped rest "{\"branch\":\"R\"}" h),
  )

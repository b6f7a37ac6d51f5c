-- ===== src/Session/Tests.antt =====
-- Two concrete peers: texts as messages, and a list of frames as the sink.
use Prim.Native.String.{String}
use typeway.Base.{◌≡◌, refl, sym, List, [], ◌∷◌, ◌++◌, some}
use typeway.Session.{SessionType, send, recv, select, end, dual}
use typeway.Session.Channel.{
  Serde, Transport, Message, text, other, ok, err, closed, Incoming, TypedWebSocket, into, ws_send,
  ws_recv, ws_select_left, ws_select_right,
}
use typeway.Session.Duality.{Session}
use typeway.Session.Peers.{ws_recv-ws_send}

abbrev plain : Serde String
plain = record { Val = λ t. String; to_string = λ t v. some v; from_str = λ t s. some s }

abbrev wire : Transport
wire = record {
  Sink = List Message;
  send = λ m sink. some (sink ++ m ∷ []);
  close = λ sink. some sink;
}

-- Send a name, then select: ask for a text, or end.
abbrev greet : SessionType String
greet = send "name" (select (recv "text" end) end)

abbrev asking : SessionType String
asking = select (recv "text" end) end

abbrev fresh : (s : SessionType String) → TypedWebSocket plain wire s
fresh s = into plain wire s [] []

abbrev pinged : Incoming
pinged = some other ∷ some other ∷ []

closed_at_end : ws_recv plain wire (fresh (recv "text" end)) ≡ err closed
unfolding ws_recv
closed_at_end = refl

abbrev greeted : TypedWebSocket plain wire asking
greeted = into plain wire asking [] (text "Ann" ∷ [])

ann_sent : ws_send plain wire (fresh greet) "Ann" ≡ ok greeted
unfolding ws_send
ann_sent = refl

ws_recv-ws_send_example :
    (json : String) × (wire.send (text json) [] ≡ some (text "Ann" ∷ []))
    × (ws_recv plain wire
          (into plain wire (recv "name" (dual asking)) (pinged ++ some (text json) ∷ []) [])
        ≡ ok ("Ann", into plain wire (dual asking) [] []))
ws_recv-ws_send_example =
    ws_recv-ws_send plain wire (fresh greet) "Ann" greeted pinged [] [] (λ json e. sym e) ann_sent
      (refl, (refl, tt))

left_selected :
    ws_select_left plain wire (fresh asking)
    ≡ ok (into plain wire (recv "text" end) [] (text "{\"branch\":\"L\"}" ∷ []))
unfolding ws_select_left
left_selected = refl

right_selected :
    ws_select_right plain wire (fresh asking)
    ≡ ok (into plain wire end [] (text "{\"branch\":\"R\"}" ∷ []))
unfolding ws_select_right
right_selected = refl

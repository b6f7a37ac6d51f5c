-- ===== src/Session/Duality.antt =====
-- Two peers whose states are dual stay so, and neither waits for the other in vain.
use typeway.Base.{◌≡◌, refl, sym, ap, ap₂, ◌∙◌, ◌⊎◌, inl, inr, Bool, true, false}
use typeway.Session.{SessionType, send, recv, offer, select, end, var, rec, dual}

-- The dual of the dual is the protocol itself.
pub dual_involutive : {M : Type 0} (s : SessionType M) → dual (dual s) ≡ s
unfolding dual
dual_involutive (send t next) = ap (send t) (dual_involutive next)
dual_involutive (recv t next) = ap (recv t) (dual_involutive next)
dual_involutive (offer l r) = ap₂ offer (dual_involutive l) (dual_involutive r)
dual_involutive (select l r) = ap₂ select (dual_involutive l) (dual_involutive r)
dual_involutive end = refl
dual_involutive (rec body) = ap rec (dual_involutive body)
dual_involutive var = refl

-- What an operation does to the peer: a message, a branch (`true` is the left one), or nothing. A
-- jump back goes on with a protocol that the program chooses.
pub data Act (M : Type 0) : Type 0 where
  sends receives : M → Act M
  chooses follows : Bool → Act M
  enters : Act M
  jumps : SessionType M → Act M

-- The states that the operations lead to.
pub data Moves {M : Type 0} : SessionType M → Act M → SessionType M → Type 0 where
  by_send : (t : M) (next : SessionType M) → Moves (send t next) (sends t) next
  by_recv : (t : M) (next : SessionType M) → Moves (recv t next) (receives t) next
  by_left : (l r : SessionType M) → Moves (select l r) (chooses true) l
  by_right : (l r : SessionType M) → Moves (select l r) (chooses false) r
  to_left : (l r : SessionType M) → Moves (offer l r) (follows true) l
  to_right : (l r : SessionType M) → Moves (offer l r) (follows false) r
  by_enter : (body : SessionType M) → Moves (rec body) enters body
  by_jump : (body : SessionType M) → Moves var (jumps body) body

abbrev pub co : {M : Type 0} → Act M → Act M
co (sends t) = receives t
co (receives t) = sends t
co (chooses b) = follows b
co (follows b) = chooses b
co enters = enters
co (jumps body) = jumps (dual body)

-- The peer can answer each move.
pub dual-Moves :
    {M : Type 0} {s s' : SessionType M} {a : Act M} → Moves s a s' → Moves (dual s) (co a) (dual s')
unfolding dual
dual-Moves (by_send t next) = by_recv t (dual next)
dual-Moves (by_recv t next) = by_send t (dual next)
dual-Moves (by_left l r) = to_left (dual l) (dual r)
dual-Moves (by_right l r) = to_right (dual l) (dual r)
dual-Moves (to_left l r) = by_left (dual l) (dual r)
dual-Moves (to_right l r) = by_right (dual l) (dual r)
dual-Moves (by_enter body) = by_enter (dual body)
dual-Moves (by_jump body) = by_jump (dual body)

-- What a move leads to is settled by the state and the act.
abbrev after : {M : Type 0} → SessionType M → Act M → SessionType M
after (send t next) a = next
after (recv t next) a = next
after (select l r) (chooses false) = r
after (select l r) a = l
after (offer l r) (follows false) = r
after (offer l r) a = l
after (rec body) a = body
after end a = end
after var (jumps body) = body
after var a = var

after-Moves : {M : Type 0} {s s' : SessionType M} {a : Act M} → Moves s a s' → s' ≡ after s a
after-Moves (by_send t next) = refl
after-Moves (by_recv t next) = refl
after-Moves (by_left l r) = refl
after-Moves (by_right l r) = refl
after-Moves (to_left l r) = refl
after-Moves (to_right l r) = refl
after-Moves (by_enter body) = refl
after-Moves (by_jump body) = refl

-- A session of two peers: each step is a move of the first with the answering move of the second, which
-- for a jump back is one to the dual protocol.
pub data Session {M : Type 0}
    : SessionType M → SessionType M → SessionType M → SessionType M → Type 0 where
  start : (s u : SessionType M) → Session s u s u
  step :
      (s u s1 u1 s2 u2 : SessionType M) (a : Act M)
      → Session s u s1 u1
      → Moves s1 a s2
      → Moves u1 (co a) u2
      → Session s u s2 u2

Session-keeps :
    {M : Type 0} {s u s' u' : SessionType M} → Session s u s' u' → u ≡ dual s → u' ≡ dual s'
Session-keeps (start _ _) e = e
Session-keeps (step _ _ s1 u1 _ _ a run m n) e =
    after-Moves n
    ∙ ap (λ x. after x (co a)) (Session-keeps run e)
    ∙ sym (after-Moves (dual-Moves m))

-- Peers that start in dual states are in dual states after any run of their operations.
pub Session-dual : {M : Type 0} (s s' u' : SessionType M) → Session s (dual s) s' u' → u' ≡ dual s'
Session-dual s s' u' run = Session-keeps run refl

-- A state with no move is the end of the protocol.
pub Moves-or-end :
    {M : Type 0} (s : SessionType M)
    → (s ≡ end) ⊎ ((a : Act M) × (s' : SessionType M) × Moves s a s')
Moves-or-end (send t next) = inr (sends t, next, by_send t next)
Moves-or-end (recv t next) = inr (receives t, next, by_recv t next)
Moves-or-end (offer l r) = inr (follows true, l, to_left l r)
Moves-or-end (select l r) = inr (chooses true, l, by_left l r)
Moves-or-end end = inl refl
Moves-or-end (rec body) = inr (enters, body, by_enter body)
Moves-or-end var = inr (jumps end, end, by_jump end)

-- ===== src/Peer/Serve/Course.antt =====
-- The courses that an inbound connection can take.
use mathlib.Core.Path.{subst}
use agent_torrent.Prelude.{String, ◌≡◌, refl, ap, List, [], ◌∷◌, Bool-cases, inl, inr}
use agent_torrent.Py.{Value, Result, ok, err, index, is_text_eq, PyTexts, ok-injective}
use agent_torrent.Py.Exec.{Exec, continue}
use agent_torrent.Ledger.{Stamp}
use agent_torrent.Identity.{Crypto, Identity}
use agent_torrent.Identity.Envelope.{Authentic}
use agent_torrent.Protocol.{
  Connection, recv, next_read, handshake_inbound, handshake, task_offer, control,
}
use agent_torrent.Protocol.Verify.{Read, line, receive}
use agent_torrent.Protocol.Receive.{receive_sound}
use agent_torrent.Executor.{System}
use agent_torrent.Peer.Worker.{Config, handle_task_offer}
use agent_torrent.Peer.Control.{Served, Turn, reply_with, handle_control}
use agent_torrent.Peer.Serve.{on_session, dispatch, converse, serve_connection}

-- The first line that the connection brings is an authentic message of this peer.
pub record Opens (c : Crypto) (conn : Connection) (remote : String) : Type 0 where
  pub envelope : Value
  pub payload : Value
  pub rest : List Read
  pub first : conn.inbox ≡ line envelope ∷ rest
  pub authentic : Authentic c envelope remote payload

-- Another state of the connection, and nothing else.
pub record Same (s t : Served) : Type 0 where
  pub ledger : t.ledger ≡ s.ledger
  pub discovery : t.discovery ≡ s.discovery

next_read-line :
    (inbox : List Read) (v : Value)
    → next_read inbox ≡ line v
    → (rest : List Read) × (inbox ≡ line v ∷ rest)
unfolding next_read
next_read-line [] v e = absurd (cc)
next_read-line (r ∷ rest) v e = (rest, ap (λ x. x ∷ rest) e)

continue-eq-ok :
    {S A B : Type 0} (r : Result A) (f : A → Exec S B) (s : S) (b : B)
    → (continue r f s).0 ≡ ok b
    → (a : A) × (r ≡ ok a) × ((f a s).0 ≡ ok b)
unfolding continue
continue-eq-ok (ok a) f s b e = (a, refl, e)
continue-eq-ok (err x) f s b e = absurd (cc)

module _ (c : Crypto) (self : Identity) where
  handshake_inbound-Opens :
      (conn : Connection) (remote : String)
      → (handshake_inbound c self conn).0 ≡ ok remote
      → Opens c conn remote
  unfolding handshake_inbound recv
  handshake_inbound-Opens conn remote e =
      let read = receive c (handshake ∷ []) conn.remote_peer_id (next_read conn.inbox) in
      let (message, got, after) = continue-eq-ok read _ _ remote e in
      let (u, was_set, after_set) = continue-eq-ok _ _ _ remote after in
      let (u', was_sent, last) = continue-eq-ok _ _ _ remote after_set in
      let same = ok-injective last in
      let sound =
        receive_sound c (handshake ∷ []) conn.remote_peer_id (next_read conn.inbox) message.0
          message.1 got in
      let (rest, first) = next_read-line conn.inbox sound.0 sound.1 in
      record {
        envelope = sound.0;
        payload = message.1;
        rest = rest;
        first = first;
        authentic = subst (λ x. Authentic c sound.0 x message.1) same sound.2;
      }

module _ (c : Crypto) (self : Identity) (py : PyTexts) (sys : System) (config : Config)
    (turn : Turn) (work_stamp : Stamp) where
  -- The connection ends before a handler runs, or the worker's handler or the control's handler runs
  -- for the peer that has shaken hands.
  pub data Course (s t : Served) : Type 0 where
    quiet : Same s t → Course s t
    worked :
        (remote : String) (payload : Value) (at : Served)
        → Opens c s.conn remote
        → Same s at
        → t ≡ (on_session (handle_task_offer c self sys config work_stamp remote payload) at).1
        → Course s t
    ruled :
        (remote : String) (payload : Value) (at : Served)
        → Opens c s.conn remote
        → Same s at
        → t ≡ (handle_control c self py turn remote payload at).1
        → Course s t

  continue-Course :
      {A : Type 0} (s at : Served) (r : Result A) (f : A → Exec Served (Unit {0}))
      → Same s at
      → ((a : A) → r ≡ ok a → Course s (f a at).1)
      → Course s (continue r f at).1
  unfolding continue
  continue-Course s at (ok a) f same k = k a refl
  continue-Course s at (err e) f same k = quiet same

  dispatch-Course :
      (s at : Served) (remote : String) (payload : Value)
      → Opens c s.conn remote
      → Same s at
      → Course s (dispatch c self py sys config turn work_stamp remote payload at).1
  unfolding dispatch
  dispatch-Course s at remote payload opens same =
      continue-Course s at (index "type" payload) _ same λ type _.
        elim (Bool-cases (is_text_eq control type)) [
          | inl e ↦ rw e (ruled remote payload at opens same refl)
          | inr e ↦ rw e (worked remote payload at opens same refl)
        ]

  pub serve_connection-Course :
      (s : Served) → Course s (serve_connection c self py sys config turn work_stamp s).1
  unfolding serve_connection converse reply_with
  serve_connection-Course s =
      continue-Course s _ (handshake_inbound c self s.conn).0 _
        (record { ledger = refl; discovery = refl })
        λ remote shaken.
          continue-Course s _
            (recv c self (task_offer ∷ control ∷ []) (handshake_inbound c self s.conn).1).0 _
            (record { ledger = refl; discovery = refl })
            λ message _.
              dispatch-Course s _ remote message.1
                (handshake_inbound-Opens c self s.conn remote shaken)
                (record { ledger = refl; discovery = refl })

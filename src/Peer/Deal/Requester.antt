-- ===== src/Peer/Deal/Requester.antt =====
-- The requester's end of a delegation.
use agent_torrent.Prelude.{
  ℕ, String, ◌≡◌, refl, ap, ◌∙◌, inr, false, [], ◌∷◌, Option, none, some, text_eq, eq_refl,
}
use agent_torrent.Py.{
  Value, object, text, boolean, null, Fields, field, end, lookup_or_null, Result, ok, index, get,
  lookup, is_one_of,
}
use agent_torrent.Py.Exec.{◌>>=◌, continue}
use agent_torrent.Ledger.{Ledger, settle}
use agent_torrent.Identity.{Bytes, Crypto, identity, payload_of}
use agent_torrent.Identity.Envelope.{CryptoLaws}
use agent_torrent.Protocol.Verify.{summarize}
use agent_torrent.Protocol.{
  next_read, next_send, deliver, send, recv, handshake_outbound, task_accept, task_reject,
  task_result,
}
use agent_torrent.Protocol.Roundtrip.{receive-seal}
use agent_torrent.Protocol.Handshake.{clean, talking, handshake_outbound-greeting}
use agent_torrent.Discovery.{PeerInfo}
use agent_torrent.Peer.Delegate.{
  Draws, Session, Outcome, completed, talk, post, match_worker, check_worker, on_success, on_result,
  on_reply, exchange,
}
use agent_torrent.Peer.Deal.{requester_lines, worker_lines}

-- The value under a key, or a default.
abbrev pub value_or : String → Value → Fields → Value
value_or k default d = elim (lookup k d) [ none ↦ default | some v ↦ v ]

found_or_default :
    (o : Option Value) (default : Value)
    → elim o [ none ↦ ok default | some v ↦ ok v ] ≡ ok (elim o [ none ↦ default | some v ↦ v ])
found_or_default none default = refl
found_or_default (some v) default = refl

get-object :
    (k : String) (default : Value) (d : Fields)
    → get k default (object d) ≡ ok (value_or k default d)
unfolding get
get-object k default d = found_or_default (lookup k d) default

-- A result for the job that reports success.
pub record IsDone (job_id : String) (result : Fields) : Type 0 where
  pub for_job : value_or "job_id" null result ≡ text job_id
  pub went_well : value_or "status" null result ≡ text "ok"

-- The outcome of such a result.
abbrev pub done_outcome : String → String → Fields → Outcome
done_outcome job_id worker result =
    completed job_id worker (value_or "harness" null result)
      (value_or "simulated" (boolean false) result) (value_or "runtime_seconds" null result)
      (value_or "output" (text "") result)

module _ (c : Crypto) (laws : CryptoLaws c) (own other : Bytes) (clock other_clock : ℕ → ℕ)
    (draws : Draws) (worker : PeerInfo) where
  open draws use {job_id, closing_stamp}

  -- The whole conversation, once the credit is held.
  abbrev pub conversation : Fields → Session → Result Outcome × Session
  conversation job = talk (handshake_outbound c (identity c own)) >>= λ _.
      exchange c (identity c own) draws worker (object job)

  on_success-done :
      (held : Ledger) (conn : _) (result : Fields)
      → (settle job_id worker.peer_id closing_stamp held).0 ≡ ok tt
      → on_success c
          (identity c own)
          draws
          worker
          (object result)
          (record { ledger = held; conn = conn })
        ≡ (
          ok (done_outcome job_id worker.peer_id result),
          record { ledger = (settle job_id worker.peer_id closing_stamp held).1; conn = conn },
        )
  unfolding on_success post continue
  on_success-done held conn result paid =
      rw
        (
          paid,
          get-object "harness" null result,
          get-object "simulated" (boolean false) result,
          get-object "runtime_seconds" null result,
          get-object "output" (text "") result,
        )
        refl

  pub conversation-done :
      (held : Ledger) (job result : Fields)
      → worker.peer_id ≡ (identity c other).peer_id
      → (settle job_id worker.peer_id closing_stamp held).0 ≡ ok tt
      → IsDone job_id result
      → conversation job (record {
        ledger = held;
        conn = clean clock (worker_lines c other other_clock job (object result));
      })
        ≡ (
          ok (done_outcome job_id worker.peer_id result),
          record {
            ledger = (settle job_id worker.peer_id closing_stamp held).1;
            conn = talking (identity c other).peer_id clock [] (requester_lines c own clock job);
          },
        )
  unfolding exchange talk check_worker match_worker on_reply on_result recv next_read continue index
      get lookup payload_of is_one_of send next_send deliver summarize
  conversation-done held job result named paid done =
      let same =
        ap (text_eq (identity c other).peer_id) named ∙ eq_refl (identity c other).peer_id in
      rw
        (
          handshake_outbound-greeting c laws own other clock other_clock _,
          same,
          receive-seal c laws other (task_accept ∷ task_reject ∷ [])
              (some (identity c other).peer_id) (other_clock 1) task_accept
              (field "job_id" (lookup_or_null "job_id" job) end) refl (inr refl),
          receive-seal c laws other (task_result ∷ []) (some (identity c other).peer_id)
              (other_clock 2) task_result
              (field "job_id" (lookup_or_null "job_id" job) (field "result" (object result) end))
              refl (inr refl),
          get-object "job_id" null result,
          done.for_job,
          eq_refl job_id,
          get-object "status" null result,
          done.went_well,
        )
        (on_success-done held
          (talking (identity c other).peer_id clock [] (requester_lines c own clock job)) result
          paid)

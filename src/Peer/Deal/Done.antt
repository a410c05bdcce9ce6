-- ===== src/Peer/Deal/Done.antt =====
-- A delegation from end to end: the job is done, and the credit has gone from one peer to the other.
use mathlib.Core.Path.{subst}
use agent_torrent.Prelude.{ℕ, String, ◌≡◌, ap, ◌∙◌, true, List, [], ◌∷◌, Option, none, some, ◌+ℤ◌}
use agent_torrent.Py.{
  Value, object, text, null, Fields, Result, ok, err, key_error, index, lookup, PyTexts,
}
use agent_torrent.Job.{new_job}
use agent_torrent.Ledger.{Ledger, Stamp, balance, can_offer, escrow, settle, credit_for_work}
use agent_torrent.Ledger.Methods.{moved, settle_succeeds_iff}
use agent_torrent.Ledger.Accounts.{escrow-IsOpen}
use agent_torrent.Identity.{Bytes, Crypto, identity}
use agent_torrent.Identity.Envelope.{CryptoLaws}
use agent_torrent.Protocol.{Dial, connected}
use agent_torrent.Protocol.Handshake.{clean}
use agent_torrent.Discovery.{PeerInfo, Discovery}
use agent_torrent.Executor.{System, field_text, execute_job}
use agent_torrent.Peer.Delegate.Candidates.{candidates, latest}
use agent_torrent.Peer.Delegate.{
  Draws, Session, Outcome, delegate, delegate_to, with_job, offer, after_escrow, attempt, rescue,
}
use agent_torrent.Peer.Delegate.Accounts.{Accounted, delegate-Accounted}
use agent_torrent.Peer.Worker.{Config, accept, answer_offer}
use agent_torrent.Peer.Control.{Served, Turn}
use agent_torrent.Peer.Serve.{serve_connection}
use agent_torrent.Peer.Deal.{requester_lines, worker_lines}
use agent_torrent.Peer.Deal.Worker.{serve_connection-worked}
use agent_torrent.Peer.Deal.Requester.{
  value_or, IsDone, done_outcome, conversation, conversation-done,
}

found_text :
    (o : Option Value) (k s : String)
    → elim o [ none ↦ null | some v ↦ v ] ≡ text s
    → elim o [ none ↦ err (key_error k) | some v ↦ ok v ] ≡ ok (text s)
found_text none k s h = absurd (cc)
found_text (some v) k s h = ap ok h

index-value_or :
    (k s : String) (d : Fields) → value_or k null d ≡ text s → index k (object d) ≡ ok (text s)
unfolding index
index-value_or k s d = found_text (lookup k d) k s

module _ (c : Crypto) (laws : CryptoLaws c) (own other : Bytes) (clock other_clock : ℕ → ℕ)
    (draws : Draws) where
  open draws use {job_id, escrow_stamp, closing_stamp}

  attempt-done :
      (p : PeerInfo) (held : Ledger) (job result : Fields)
      → p.peer_id ≡ (identity c other).peer_id
      → (settle job_id p.peer_id closing_stamp held).0 ≡ ok tt
      → IsDone job_id result
      → attempt c
          (identity c own)
          draws
          p
          (connected (clean clock (worker_lines c other other_clock job (object result))))
          (object job)
          held
        ≡ (
          ok (done_outcome job_id p.peer_id result),
          (settle job_id p.peer_id closing_stamp held).1,
        )
  unfolding attempt
  attempt-done p held job result named paid done =
      ap (λ (o : Result Outcome × Session). (o.0, (o.1).ledger))
        (conversation-done c laws own other clock other_clock draws p held job result named paid
          done)

  -- The requester's end, with a worker that answers as it should.
  offer-done :
      (p : PeerInfo) (l : Ledger) (job result : Fields)
      → p.peer_id ≡ (identity c other).peer_id
      → (escrow job_id p.peer_id escrow_stamp l).0 ≡ ok tt
      → IsDone job_id result
      → offer c
          (identity c own)
          draws
          p
          (connected (clean clock (worker_lines c other other_clock job (object result))))
          (object job)
          l
        ≡ (
          ok (done_outcome job_id p.peer_id result),
          (settle job_id p.peer_id closing_stamp (escrow job_id p.peer_id escrow_stamp l).1).1,
        )
  unfolding offer after_escrow rescue
  offer-done p l job result named held done =
      let at = (escrow job_id p.peer_id escrow_stamp l).1 in
      let paid =
        (settle_succeeds_iff job_id p.peer_id closing_stamp at).1
          (escrow-IsOpen job_id p.peer_id escrow_stamp l held) in
      let ended = λ (o : Result Outcome × Ledger). rescue c (identity c own) draws p o.0 o.1 in
      rw held (ap ended (attempt-done p at job result named paid done))

  delegate-done :
      (p : PeerInfo) (peers : List PeerInfo) (dial : PeerInfo → Dial) (l : Ledger)
      (job result : Fields) (task required max_tokens max_runtime expected : Value)
      → can_offer l ≡ true
      → new_job job_id task required max_tokens max_runtime expected ≡ ok (object job)
      → candidates required peers ≡ ok (p ∷ [])
      → p.peer_id ≡ (identity c other).peer_id
      → (escrow job_id p.peer_id escrow_stamp l).0 ≡ ok tt
      → dial p ≡ connected (clean clock (worker_lines c other other_clock job (object result)))
      → IsDone job_id result
      → delegate c (identity c own) draws dial peers task required max_tokens max_runtime expected l
        ≡ (
          ok (done_outcome job_id p.peer_id result),
          (settle job_id p.peer_id closing_stamp (escrow job_id p.peer_id escrow_stamp l).1).1,
        )
  unfolding delegate with_job delegate_to latest
  delegate-done p peers dial l job result task required max_tokens max_runtime expected rich made
        fits named held dialled done =
      rw (rich, made, fits, dialled) (offer-done p l job result named held done)

  module _ (py : PyTexts) (sys : System) (config : Config) (turn : Turn) (work_stamp : Stamp) where
    -- The worker, on the two lines that the requester sends.
    abbrev pub worker_end : Ledger → Discovery → Fields → Served
    worker_end l d job =
        (serve_connection c (identity c other) py sys config turn work_stamp (record {
          ledger = l;
          discovery = d;
          conn = clean other_clock (requester_lines c own clock job);
        })).1

    -- A job is done from end to end. Let the requester have a credit to spend, a valid job of a new
    -- id, and one candidate, let the worker take the job and its harness succeed, and let the
    -- connection between them be without an error, under the laws of the hash and the signatures.
    -- Then the lines that each end sends are those that the other reads; `delegate` returns the
    -- completed outcome with the fields of the worker's result; of the requester's accounts one
    -- credit has gone from the spendable balance to the worker; and the worker's ledger is what
    -- `credit_for_work` makes of it for that job and the requester.
    pub job_done :
        (p : PeerInfo) (peers : List PeerInfo) (dial : PeerInfo → Dial) (l l_worker : Ledger)
        (d_worker : Discovery) (job result : Fields)
        (task required max_tokens max_runtime expected : Value)
        → can_offer l ≡ true
        → new_job job_id task required max_tokens max_runtime expected ≡ ok (object job)
        → candidates required peers ≡ ok (p ∷ [])
        → p.peer_id ≡ (identity c other).peer_id
        → (escrow job_id p.peer_id escrow_stamp l).0 ≡ ok tt
        → dial p ≡ connected (clean clock (worker_end l_worker d_worker job).conn.outbox)
        → answer_offer config (identity c other).peer_id (identity c own).peer_id (object job)
          ≡ ok (accept job)
        → execute_job sys config.harnesses config.force_simulate config.env_passthrough job
          ≡ ok (object result)
        → IsDone job_id result
        → let out =
            delegate c
              (identity c own)
              draws
              dial
              peers
              task
              required
              max_tokens
              max_runtime
              expected
              l in
          let at = (escrow job_id p.peer_id escrow_stamp l).1 in
          (out.0 ≡ ok (done_outcome job_id p.peer_id result))
          × ((a : String) → balance a out.1 ≡ balance a l +ℤ moved "self" p.peer_id a)
          × ((worker_end l_worker d_worker job).ledger
              ≡ (credit_for_work
                  (field_text "job_id" job)
                  (identity c own).peer_id
                  work_stamp
                  l_worker).1)
          × (((conversation c laws own other clock other_clock draws p job (record {
            ledger = at;
            conn = clean clock (worker_end l_worker d_worker job).conn.outbox;
          })).1
                ).conn.outbox
              ≡ requester_lines c own clock job)
    job_done p peers dial l l_worker d_worker job result task required max_tokens max_runtime
          expected rich made fits named held dialled takes ran done =
        let at = (escrow job_id p.peer_id escrow_stamp l).1 in
        let paid =
          (settle_succeeds_iff job_id p.peer_id closing_stamp at).1
            (escrow-IsOpen job_id p.peer_id escrow_stamp l held) in
        let worked =
          serve_connection-worked c laws other own other_clock clock py sys config turn work_stamp
            l_worker d_worker job (object result) takes ran
            (index-value_or "status" "ok" result done.went_well) in
        let lines : (worker_end l_worker d_worker job).conn.outbox
            ≡ worker_lines c other other_clock job (object result) =
          ap (λ (s : Served). s.conn.outbox) worked in
        let run =
          delegate-done p peers dial l job result task required max_tokens max_runtime expected rich
            made fits named held (dialled ∙ ap (λ said. connected (clean clock said)) lines) done in
        let moved_by = subst (Accounted l) run (
          delegate-Accounted c (identity c own) draws l dial peers task required max_tokens
            max_runtime expected) in
        (
          ap (λ (o : Result Outcome × Ledger). o.0) run,
          (λ a. ap (λ (o : Result Outcome × Ledger). balance a o.1) run ∙ moved_by a),
          ap (λ (s : Served). s.ledger) worked,
          ap
                (λ said.
                  ((conversation c laws own other clock other_clock draws p job
                    (record { ledger = at; conn = clean clock said })).1
                  ).conn.outbox)
                lines
              ∙ ap (λ (o : Result Outcome × Session). (o.1).conn.outbox)
                  (conversation-done c laws own other clock other_clock draws p at job result named
                    paid done),
        )

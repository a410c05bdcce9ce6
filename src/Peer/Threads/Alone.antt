-- ===== src/Peer/Threads/Alone.antt =====
-- A call of `delegate` with no other thread in between.
use agent_torrent.Prelude.{◌≡◌, refl, true, false, Bool, List, [], ◌∷◌, ◌++◌, if◌then◌else◌}
use agent_torrent.Py.{Value, Result, ok, err, job_error}
use agent_torrent.Job.{new_job}
use agent_torrent.Ledger.{Ledger, escrow, can_offer}
use agent_torrent.Identity.{Crypto, Identity}
use agent_torrent.Discovery.{PeerInfo}
use agent_torrent.Peer.Delegate.Candidates.{candidates}
use agent_torrent.Peer.Delegate.{
  Outcome, failed, zero_balance, after_escrow, offer, delegate_to, with_job, delegate,
}
use agent_torrent.Peer.Threads.{
  Call, Task, Begun, returns, chooses, Threads, asks, reserves, closes, choose_worker, begin_job,
  begin, pick, note_begun, on_reserved, reserve, conclude, close, run_piece, schedule,
}

-- No call is under way.
abbrev pub idle : List (Result Outcome) → Ledger → Threads
idle finished ledger = record { ledger = ledger; chosen = []; waiting = []; finished = finished }

-- A call has come to its end.
abbrev pub ended : List (Result Outcome) → Result Outcome × Ledger → Threads
ended finished out = idle (finished ++ out.0 ∷ []) out.1

module _ (c : Crypto) (self : Identity) (finished : List (Result Outcome)) where
  abbrev rest : Begun → Ledger → Threads
  rest begun l = schedule c self (reserves 0 ∷ closes 0 ∷ []) (note_begun begun (idle finished l))

  after_reserve :
      (task : Task) (l : Ledger) (held : Result (Unit {0}) × Ledger)
      → schedule c self
          (closes 0 ∷ [])
          (on_reserved task held.0 (record (idle finished l) { ledger = held.1; chosen = [] }))
        ≡ ended finished
            (after_escrow c self task.draws task.worker task.dial task.job held.0 held.1)
  unfolding schedule run_piece on_reserved pick close conclude after_escrow
  after_reserve task l (ok _, m) = refl
  after_reserve task l (err e, m) = refl

  rest-returns : (r : Result Outcome) (l : Ledger) → rest (returns r) l ≡ ended finished (r, l)
  unfolding schedule run_piece note_begun pick reserve close
  rest-returns r l = refl

  rest-chooses :
      (task : Task) (l : Ledger)
      → rest (chooses task) l
        ≡ ended finished (offer c self task.draws task.worker task.dial task.job l)
  unfolding schedule run_piece note_begun pick reserve offer
  rest-chooses task l =
      after_reserve task l (escrow task.draws.job_id task.worker.peer_id task.draws.escrow_stamp l)

  rest-choose_worker :
      (call : Call) (job : Value) (r : Result (List PeerInfo)) (l : Ledger)
      → rest (choose_worker call job r) l
        ≡ ended finished (delegate_to c self call.draws call.dial call.required_harness job r l)
  unfolding choose_worker delegate_to
  rest-choose_worker call job (err e) l = rest-returns (err e) l
  rest-choose_worker call job (ok []) l = rest-returns _ l
  rest-choose_worker call job (ok (p ∷ ps)) l = rest-chooses _ l

  rest-begin_job :
      (call : Call) (job : Result Value) (l : Ledger)
      → rest (begin_job call job) l
        ≡ ended finished (
            with_job job
              (λ j m.
                delegate_to c self call.draws call.dial call.required_harness j
                  (candidates call.required_harness call.live_peers)
                  m)
              l)
  unfolding begin_job with_job
  rest-begin_job call (ok job) l = rest-choose_worker call job _ l
  rest-begin_job call (err (job_error e)) l = rest-returns _ l
  rest-begin_job call (err _) l = rest-returns _ l

  rest-if :
      (b : Bool) (l : Ledger) (x y : Begun) (p q : Result Outcome × Ledger)
      → rest x l ≡ ended finished p
      → rest y l ≡ ended finished q
      → rest (if b then x else y) l ≡ ended finished (if b then p else q)
  rest-if true l x y p q h k = h
  rest-if false l x y p q h k = k

  -- If no other call is under way, then the pieces of one call, run one after the other, leave the
  -- ledger that `delegate` leaves and finish with what `delegate` returns or raises.
  pub schedule-delegate :
      (call : Call) (l : Ledger)
      → schedule c self (asks call ∷ reserves 0 ∷ closes 0 ∷ []) (idle finished l)
        ≡ ended finished (
            delegate c self call.draws call.dial call.live_peers call.task_text
              call.required_harness call.max_tokens call.max_runtime_seconds call.expected_output l)
  unfolding schedule run_piece begin delegate
  schedule-delegate call l =
      rest-if (can_offer l) l _ _ _ _
        (rest-begin_job call
          (new_job call.draws.job_id call.task_text call.required_harness call.max_tokens
            call.max_runtime_seconds call.expected_output)
          l)
        (rest-returns (ok (failed zero_balance)) l)

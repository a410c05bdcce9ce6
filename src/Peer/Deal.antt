-- ===== src/Peer/Deal.antt =====
-- The two ends of one delegation, `Peer.delegate` at the requester and `_serve_connection` at the worker,
-- over a connection that no error befalls.
pub mod Worker
pub mod Requester
pub mod Done
mod Tests
use agent_torrent.Prelude.{ℕ, String, List, [], ◌∷◌}
use agent_torrent.Py.{Value, object, Fields, field, end, lookup_or_null}
use agent_torrent.Identity.{Bytes, Crypto, identity, seal}
use agent_torrent.Protocol.{task_offer, task_accept, task_result}
use agent_torrent.Protocol.Handshake.{greeting}

-- What the two ends say of a job and of its result.
module _ (c : Crypto) (seed : Bytes) (clock : ℕ → ℕ) (job : Fields) where
  abbrev pub offered : Value
  offered = seal c (identity c seed) (clock 1) task_offer (object (field "job" (object job) end))

  abbrev pub accepted : Value
  accepted =
      seal c (identity c seed) (clock 1) task_accept
        (object (field "job_id" (lookup_or_null "job_id" job) end))

  abbrev pub delivered : Value → Value
  delivered result =
      seal c (identity c seed) (clock 2) task_result
        (object (field "job_id" (lookup_or_null "job_id" job) (field "result" result end)))

  abbrev pub requester_lines : List Value
  requester_lines = greeting c seed clock ∷ offered ∷ []

  abbrev pub worker_lines : Value → List Value
  worker_lines result = greeting c seed clock ∷ accepted ∷ delivered result ∷ []

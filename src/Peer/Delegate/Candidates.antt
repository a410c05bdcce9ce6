-- ===== src/Peer/Delegate/Candidates.antt =====
-- The choice of a worker among the live peers.
use agent_torrent.Prelude.{Bool, true, false, List, [], ◌∷◌, if◌then◌else◌, ltb}
use agent_torrent.Py.{
  Value, object, text, lookup, is_some, is_text_eq, truthy, Result, ok, err, index, type_error,
  ◌>>=◌,
}
use agent_torrent.Discovery.{PeerInfo}

-- `key in d`; a job that has been validated names its harness by a text.
unfoldable pub has_key : Value → Value → Result Bool
unfolding lookup
has_key (text k) (object d) = ok (is_some (lookup k d))
has_key _ _ = err type_error

-- The condition on one peer.
unfoldable pub is_candidate : Value → PeerInfo → Result Bool
unfolding has_key truthy
is_candidate required p = do
  accepts ← index "accepts_tasks" p.manifest
  if truthy accepts
      then (if is_text_eq "any" required
          then ok true
          else (do harnesses ← index "harnesses" p.manifest; has_key required harnesses))
      else ok false

unfoldable pub candidates : Value → List PeerInfo → Result (List PeerInfo)
unfolding is_candidate
candidates required [] = ok []
candidates required (p ∷ peers) = do
  fits ← is_candidate required p
  rest ← candidates required peers
  ok (if fits then p ∷ rest else rest)

-- `max(candidates, key=lambda p: p.last_seen)`: the first of those seen last.
unfoldable pub latest : PeerInfo → List PeerInfo → PeerInfo
latest best [] = best
latest best (p ∷ rest) = latest (if ltb best.last_seen p.last_seen then p else best) rest

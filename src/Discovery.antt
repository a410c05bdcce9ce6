-- ===== src/Discovery.antt =====
-- agenttorrent/discovery.py: beacons and the peer table that gossip builds. Times are microseconds.
-- The lock makes each use of the table one step; the sockets are the datagrams that arrive and the
-- replies that a call returns.
pub mod Beacon
pub mod News
pub mod Table
pub mod Gossip
pub mod Crash
pub mod Origin
pub mod Meet
pub mod Sender
pub mod Live
mod Tests
use Prim.Native.Nat.{Ordering}
use Prim.Native.String.{compare}
use agent_torrent.Prelude.{
  ℕ, suc, zero, ◌-◌, ◌*◌, String, Bool, true, false, ◌&&◌, List, [], ◌∷◌, ◌++◌, map, if◌then◌else◌,
  Option, none, some, text_eq, ltb, ℤ, pos, not,
}
use agent_torrent.Py.{
  Value, object, text, int, boolean, float, Fields, field, end, Error, Result, ok, err, value_error,
  is_envelope_error, is_some,
}
use agent_torrent.Identity.{Crypto, Identity, seal}
use agent_torrent.Discovery.Beacon.{Datagram, accept_beacon}

-- `PEER_TTL_SECONDS`
abbrev pub peer_ttl : ℕ
peer_ttl = 30 * 1000000

abbrev pub msg_beacon : String
msg_beacon = "BEACON"

abbrev pub Address : Type 0
Address = String × ℕ

-- The port stays the value of the beacon.
pub record PeerInfo : Type 0 where
  pub peer_id : String
  pub host : String
  pub tcp_port : Value
  pub manifest : Value
  pub last_seen : ℕ

unfoldable pub to_dict : PeerInfo → Value
to_dict p = object (
    field "peer_id" (text p.peer_id) (
      field "host" (text p.host) (
        field "tcp_port" p.tcp_port
          (field "manifest" p.manifest (field "last_seen" (float p.last_seen) end)))))

abbrev pub Table : Type 0
Table = List (String × PeerInfo)

pub record Discovery : Type 0 where
  pub identity : Identity
  pub tcp_port : ℕ
  pub manifest : Value
  pub table : Table

-- `d.get(key)`, `d[key] = value`: a new key goes to the end.
unfoldable pub find : String → Table → Option PeerInfo
find k [] = none
find k ((j, p) ∷ table) = if text_eq j k then some p else find k table

unfoldable pub insert : String → PeerInfo → Table → Table
insert k p [] = (k, p) ∷ []
insert k p ((j, q) ∷ table) =
    let rest = insert k p table in if text_eq j k then (j, p) ∷ table else (j, q) ∷ rest

-- The table without the entries that `peers` expires.
unfoldable pub drop_expired : ℕ → Table → Table
drop_expired cutoff [] = []
drop_expired cutoff ((k, p) ∷ table) =
    let rest = drop_expired cutoff table in if ltb p.last_seen cutoff then rest else (k, p) ∷ rest

-- `sorted(…, key=lambda p: p.peer_id)`, by insertion
unfoldable pub is_before : PeerInfo → PeerInfo → Bool
is_before p q = elim (compare p.peer_id q.peer_id) [ Ordering.gt ↦ false | _ ↦ true ]

unfoldable pub insert_sorted : PeerInfo → List PeerInfo → List PeerInfo
insert_sorted p [] = p ∷ []
insert_sorted p (q ∷ rest) =
    let after = insert_sorted p rest in if is_before p q then p ∷ q ∷ rest else q ∷ after

unfoldable pub sort_peers : List PeerInfo → List PeerInfo
unfolding insert_sorted is_before
sort_peers [] = []
sort_peers (p ∷ rest) = insert_sorted p (sort_peers rest)

abbrev pub value_of : String × PeerInfo → PeerInfo
value_of (k, p) = p

-- `peers`, at the time `now`. A cutoff below zero expires nothing, as in the source.
unfoldable pub peers : ℕ → Discovery → List PeerInfo × Discovery
unfolding drop_expired sort_peers
peers now d =
    let live = drop_expired (now - peer_ttl) d.table in
    (sort_peers (map value_of live), record d { table = live })

-- `get_peer`
unfoldable pub first_with : String → List PeerInfo → Option PeerInfo
first_with peer_id [] = none
first_with peer_id (p ∷ rest) =
    if text_eq p.peer_id peer_id then some p else first_with peer_id rest

unfoldable pub get_peer : String → ℕ → Discovery → Option PeerInfo × Discovery
unfolding peers first_with
get_peer peer_id now d = (first_with peer_id (peers now d).0, (peers now d).1)

module _ (c : Crypto) where
  -- `_beacon_bytes`, before its encoding
  unfoldable pub beacon : ℕ → Discovery → Value
  beacon ts d =
      seal c d.identity ts msg_beacon
        (object (field "tcp_port" (int (pos d.tcp_port)) (field "manifest" d.manifest end)))

  -- What the call sends back: a beacon, to a peer that is new.
  abbrev pub Replies : Type 0
  Replies = List (Address × Value)

  unfoldable pub learn : Address → ℕ → Discovery → String × Value × Value → Replies × Discovery
  unfolding find insert beacon
  learn addr now d (sender, tcp_port, manifest) =
      let info : PeerInfo = record {
        peer_id = sender;
        host = addr.0;
        tcp_port = tcp_port;
        manifest = manifest;
        last_seen = now;
      } in
      let d' = record d { table = insert sender info d.table } in
      (if is_some (find sender d.table) then [] else (addr, beacon now d') ∷ [], d')

  -- The end of `_handle_beacon`, by what the checks have made of the datagram; an exception leaves
  -- the table alone.
  unfoldable pub handle_news :
      Address
      → ℕ
      → Discovery
      → Result (Option (String × Value × Value))
      → Result Replies × Discovery
  unfolding learn
  handle_news addr now d (err e) = (err e, d)
  handle_news addr now d (ok none) = (ok [], d)
  handle_news addr now d (ok (some news)) =
      let (replies, d') = learn addr now d news in (ok replies, d')

  unfoldable pub handle_beacon : Datagram → Address → ℕ → Discovery → Result Replies × Discovery
  unfolding handle_news
  handle_beacon received addr now d =
      handle_news addr now d (accept_beacon c d.identity.peer_id received)

  -- The next round of the loop, unless an exception that `_handle_beacon` lets through has ended the
  -- thread.
  unfoldable pub next_round :
      Result Replies × Discovery → Result (Unit {0}) × Discovery → Result (Unit {0}) × Discovery
  next_round (err e, d) rest = (err e, d)
  next_round (ok replies, d) rest = rest

  -- `_recv_loop`, over the datagrams that arrive, with the address and the time of each.
  unfoldable pub recv_loop :
      List (Datagram × Address × ℕ) → Discovery → Result (Unit {0}) × Discovery
  unfolding handle_beacon next_round
  recv_loop [] d = (ok tt, d)
  recv_loop ((received, addr, now) ∷ events) d =
      let out = handle_beacon received addr now d in next_round out (recv_loop events out.1)

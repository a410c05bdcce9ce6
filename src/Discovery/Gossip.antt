-- ===== src/Discovery/Gossip.antt =====
-- What a run of beacons leaves in the peer table.
use agent_torrent.Prelude.{
  ℕ, String, ◌≡◌, refl, ap, ◌∙◌, List, [], ◌∷◌, if◌then◌else◌, Option, none, some, text_eq, eq_iff,
  arith,
}
use agent_torrent.Py.{Value, Result, ok, err}
use agent_torrent.Identity.{Crypto, Identity}
use agent_torrent.Discovery.Beacon.{Datagram, accept_beacon}
use agent_torrent.Discovery.{
  Address, PeerInfo, Table, Discovery, find, insert, handle_news, next_round, handle_beacon,
  recv_loop,
}

pub find-insert :
    (j k : String) (p : PeerInfo) (table : Table)
    → find j (insert k p table) ≡ (if text_eq k j then some p else find j table)
unfolding find insert
find-insert j k p [] = refl
find-insert j k p ((i, q) ∷ table) =
    ground (arith, eq_iff k j, eq_iff i k, eq_iff i j, find-insert j k p table)

abbrev pub or_else : Option PeerInfo → Option PeerInfo → Option PeerInfo
or_else (some p) q = some p
or_else none q = q

row : Address → ℕ → String × Value × Value → PeerInfo
row addr now (sender, port, manifest) = record {
  peer_id = sender;
  host = addr.0;
  tcp_port = port;
  manifest = manifest;
  last_seen = now;
}

module _ (c : Crypto) where
  -- What one beacon leaves under a key.
  heard_one : String → Address → ℕ → Result (Option (String × Value × Value)) → Option PeerInfo
  heard_one j addr now (ok (some news)) =
      if text_eq news.0 j then some (row addr now news) else none
  heard_one j addr now _ = none

  -- What a run of beacons leaves under a key: the row of the last beacon that was accepted from that
  -- peer before an exception ends the loop.
  heard_then :
      String
      → Address
      → ℕ
      → Result (Option (String × Value × Value))
      → Option PeerInfo
      → Option PeerInfo
  unfolding heard_one
  heard_then j addr now (err e) rest = none
  heard_then j addr now (ok o) rest = or_else rest (heard_one j addr now (ok o))

  pub heard : String → String → List (Datagram × Address × ℕ) → Option PeerInfo
  unfolding heard_then
  heard own_id j [] = none
  heard own_id j ((received, addr, now) ∷ events) =
      heard_then j addr now (accept_beacon c own_id received) (heard own_id j events)

  find-handle_news :
      (j : String) (addr : Address) (now : ℕ) (d : Discovery)
      (r : Result (Option (String × Value × Value)))
      → find j ((handle_news c addr now d r).1).table
        ≡ or_else (heard_one j addr now r) (find j d.table)
  unfolding handle_news heard_one row
  find-handle_news j addr now d (err e) = refl
  find-handle_news j addr now d (ok none) = refl
  find-handle_news j addr now d (ok (some (s, port, manifest))) =
      find-insert j s _ d.table ∙ ground arith

  or_else_assoc : (x y z : Option PeerInfo) → or_else x (or_else y z) ≡ or_else (or_else x y) z
  or_else_assoc (some p) y z = refl
  or_else_assoc none y z = refl

  identity-handle_news :
      (addr : Address) (now : ℕ) (d : Discovery) (r : Result (Option (String × Value × Value)))
      → ((handle_news c addr now d r).1).identity ≡ d.identity
  unfolding handle_news
  identity-handle_news addr now d (err e) = refl
  identity-handle_news addr now d (ok none) = refl
  identity-handle_news addr now d (ok (some news)) = refl

  find-next_round :
      (j : String) (addr : Address) (now : ℕ) (d : Discovery)
      (r : Result (Option (String × Value × Value))) (rest : Result (Unit {0}) × Discovery)
      (h : Option PeerInfo)
      → find j (rest.1).table ≡ or_else h (find j ((handle_news c addr now d r).1).table)
      → find j ((next_round c (handle_news c addr now d r) rest).1).table
        ≡ or_else (heard_then j addr now r h) (find j d.table)
  unfolding handle_news next_round heard_then
  find-next_round j addr now d (err e) rest h ih = refl
  find-next_round j addr now d (ok none) rest h ih = ih ∙ or_else_assoc h none (find j d.table)
  find-next_round j addr now d (ok (some news)) rest h ih =
      ih
      ∙ ap (or_else h) (find-handle_news j addr now d (ok (some news)))
      ∙ or_else_assoc h (heard_one j addr now (ok (some news))) (find j d.table)

  -- After any run of `_recv_loop` the table holds, under each id, the row of the last beacon that
  -- was accepted from that peer before an exception ended the loop, and the row that it held before
  -- if there was none.
  pub find-recv_loop :
      (j : String) (events : List (Datagram × Address × ℕ)) (d : Discovery)
      → find j ((recv_loop c events d).1).table
        ≡ or_else (heard d.identity.peer_id j events) (find j d.table)
  unfolding recv_loop heard handle_beacon
  find-recv_loop j [] d = refl
  find-recv_loop j ((received, addr, now) ∷ events) d =
      let r = accept_beacon c d.identity.peer_id received in
      let d' = (handle_news c addr now d r).1 in
      find-next_round j addr now d r (recv_loop c events d') (heard d.identity.peer_id j events) (
        find-recv_loop j events d'
        ∙ ap (λ (i : Identity). or_else (heard i.peer_id j events) (find j d'.table))
            (identity-handle_news addr now d r))

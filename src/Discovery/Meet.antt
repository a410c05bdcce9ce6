-- ===== src/Discovery/Meet.antt =====
-- A beacon on its way: what one peer sends, another learns.
use agent_torrent.Prelude.{
  ℕ, [], ◌∷◌, none, String, ◌≡◌, refl, ap, ◌∙◌, true, false, if◌then◌else◌, some, text_eq, eq_refl,
  eq_iff, pos, arith,
}
use agent_torrent.Py.{Value, object, text, int, field, end, ok, index, get, lookup, is_some}
use agent_torrent.Identity.{Bytes, Crypto, Identity, identity, open_envelope, payload_of}
use agent_torrent.Identity.Envelope.{CryptoLaws, open_envelope-seal}
use agent_torrent.Manifest.{validate_manifest}
use agent_torrent.Discovery.Beacon.{
  datagram, is_port, open_datagram, check_manifest, check_body, check_beacon, accept_beacon,
}
use agent_torrent.Discovery.{
  Address, PeerInfo, Table, Discovery, find, insert, beacon, learn, handle_news, handle_beacon,
}
use agent_torrent.Discovery.Gossip.{find-insert}

-- A table of the peer with this key, whose own port and manifest are in order.
pub record IsReady (c : Crypto) (seed : Bytes) (d : Discovery) : Type 0 where
  pub own : d.identity ≡ identity c seed
  pub port : is_port (int (pos d.tcp_port)) ≡ true
  pub valid : validate_manifest d.manifest ≡ ok d.manifest
  pub named : index "peer_id" d.manifest ≡ ok (text (identity c seed).peer_id)

apart_sym : (s t : String) → text_eq s t ≡ false → text_eq t s ≡ false
apart_sym s t apart = ground (arith, apart, eq_iff s t, eq_iff t s)

find-filed : (k : String) (p : PeerInfo) (table : Table) → find k (insert k p table) ≡ some p
find-filed k p table = find-insert k k p table ∙ rw (eq_refl k) refl

-- The payload of a beacon.
abbrev news_of : Crypto → Identity → ℕ → Discovery → Value
news_of c self ts d =
    payload_of c self ts "BEACON"
      (object (field "tcp_port" (int (pos d.tcp_port)) (field "manifest" d.manifest end)))

opened_message :
    (c : Crypto) (v : Value) (message : String × Value)
    → open_envelope c v ≡ ok message
    → open_datagram c (datagram v) ≡ ok (some message)
unfolding open_datagram
opened_message c v message e = rw (e, open_datagram) refl

check_manifest-named :
    (sender : String) (port manifest : Value)
    → index "peer_id" manifest ≡ ok (text sender)
    → check_manifest sender port (ok manifest) ≡ ok (some (sender, port, manifest))
unfolding check_manifest
check_manifest-named sender port manifest named = rw (named, eq_refl sender) refl

module _ (c : Crypto) (laws : CryptoLaws c) (seed : Bytes) where
  open_datagram-beacon :
      (ts : ℕ) (d : Discovery)
      → d.identity ≡ identity c seed
      → open_datagram c (datagram (beacon c ts d))
        ≡ ok (some ((identity c seed).peer_id, news_of c (identity c seed) ts d))
  unfolding beacon
  open_datagram-beacon ts d own = rw own (
      opened_message c _ _ (
        open_envelope-seal c laws seed ts "BEACON"
          (object (field "tcp_port" (int (pos d.tcp_port)) (field "manifest" d.manifest end)))))

  check_body-beacon :
      (ts : ℕ) (d : Discovery)
      → IsReady c seed d
      → check_body (identity c seed).peer_id (news_of c (identity c seed) ts d)
        ≡ ok (some ((identity c seed).peer_id, int (pos d.tcp_port), d.manifest))
  unfolding check_body payload_of get lookup
  check_body-beacon ts d ready =
      rw (ready.port, ready.valid)
        (check_manifest-named (identity c seed).peer_id (int (pos d.tcp_port)) d.manifest
          ready.named)

  accept_beacon-beacon :
      (ts : ℕ) (d : Discovery) (other : String)
      → IsReady c seed d
      → text_eq (identity c seed).peer_id other ≡ false
      → accept_beacon c other (datagram (beacon c ts d))
        ≡ ok (some ((identity c seed).peer_id, int (pos d.tcp_port), d.manifest))
  unfolding accept_beacon check_beacon payload_of index lookup
  accept_beacon-beacon ts d other ready apart =
      rw (open_datagram-beacon ts d ready.own, apart) (check_body-beacon ts d ready)

  -- The row that the beacon of this table makes.
  abbrev pub row_of : Address → ℕ → Discovery → PeerInfo
  row_of addr now d = record {
    peer_id = (identity c seed).peer_id;
    host = addr.0;
    tcp_port = int (pos d.tcp_port);
    manifest = d.manifest;
    last_seen = now;
  }

  -- What `_handle_beacon` of another peer does with it.
  pub handle_beacon-beacon :
      (ts now : ℕ) (addr : Address) (d other : Discovery)
      → IsReady c seed d
      → text_eq (identity c seed).peer_id other.identity.peer_id ≡ false
      → let after = record other {
        table = insert (identity c seed).peer_id (row_of addr now d) other.table;
      } in
        handle_beacon c (datagram (beacon c ts d)) addr now other ≡ (
          ok (
              if is_some (find (identity c seed).peer_id other.table)
              then []
              else (addr, beacon c now after) ∷ []),
          after,
        )
  unfolding handle_beacon handle_news learn
  handle_beacon-beacon ts now addr d other ready apart =
      rw (accept_beacon-beacon ts d other.identity.peer_id ready apart) refl

module _ (c : Crypto) (laws : CryptoLaws c) (seed_a seed_b : Bytes) where
  -- Take two peers of different ids with a valid port and a valid manifest of their own, under the
  -- laws of the hash and the signatures. If the second has not heard of the first and receives its
  -- beacon, then it answers with one datagram to the address that the beacon came from, and its
  -- table holds the first peer's row; and the table of the first, once it has received that answer,
  -- holds the second peer's row.
  pub meet :
      (ts now later : ℕ) (addr_a addr_b : Address) (a b : Discovery)
      → IsReady c seed_a a
      → IsReady c seed_b b
      → text_eq (identity c seed_a).peer_id (identity c seed_b).peer_id ≡ false
      → find (identity c seed_a).peer_id b.table ≡ none
      → let heard = handle_beacon c (datagram (beacon c ts a)) addr_a now b in
        let answer = beacon c now heard.1 in
        let answered = handle_beacon c (datagram answer) addr_b later a in
        (heard.0 ≡ ok ((addr_a, answer) ∷ []))
        × (find (identity c seed_a).peer_id (heard.1).table
            ≡ some (row_of c laws seed_a addr_a now a))
        × (find (identity c seed_b).peer_id (answered.1).table
            ≡ some (row_of c laws seed_b addr_b later b))
  meet ts now later addr_a addr_b a b ready_a ready_b apart new =
      let apart_b =
        ap (λ (i : Identity). text_eq (identity c seed_a).peer_id i.peer_id) ready_b.own ∙ apart in
      let heard = handle_beacon-beacon c laws seed_a ts now addr_a a b ready_a apart_b in
      let b' = record b {
        table = insert (identity c seed_a).peer_id (row_of c laws seed_a addr_a now a) b.table;
      } in
      let ready_b' : IsReady c seed_b b' = record {
        own = ready_b.own;
        port = ready_b.port;
        valid = ready_b.valid;
        named = ready_b.named;
      } in
      let apart_a =
        ap (λ (i : Identity). text_eq (identity c seed_b).peer_id i.peer_id) ready_a.own
        ∙ apart_sym _ _ apart in
      let answered = handle_beacon-beacon c laws seed_b now later addr_b b' a ready_b' apart_a in
      rw heard (
        rw new refl,
        find-filed (identity c seed_a).peer_id _ b.table,
        rw answered (find-filed (identity c seed_b).peer_id _ a.table),
      )

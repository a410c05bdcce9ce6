-- ===== src/Discovery/Tests.antt =====
-- Runs of the receive loop of the discovery.
use agent_torrent.Prelude.{
  ℕ, String, ◌≡◌, refl, text_eq, false, none, some, Option, List, [], ◌∷◌, true, pos,
}
use agent_torrent.Py.{
  index, lookup, Value, object, text, int, null, boolean, field, end, ok, err, attribute_error,
}
use agent_torrent.Identity.{Identity, seal, open_envelope, payload_of}
use agent_torrent.Identity.Envelope.{open_envelope-seal}
use agent_torrent.Identity.Samples.{toy_crypto, toy_laws, alice, bob}
use agent_torrent.Manifest.{build_manifest}
use agent_torrent.Discovery.Beacon.{Datagram, datagram}
use agent_torrent.Discovery.{Address, Discovery, Table, find, beacon, handle_beacon, recv_loop}
use agent_torrent.Discovery.Table.{AllRows, handle_beacon-AllRows}
use agent_torrent.Discovery.Gossip.{or_else, heard, find-recv_loop}
use agent_torrent.Prelude.{Bool, ◌&&◌, not, ltb, ◌-◌, map}
use agent_torrent.Discovery.{PeerInfo, peer_ttl, value_of, peers}
use agent_torrent.Discovery.Live.{IsSorted, count_rows, peers_lem}
use agent_torrent.Discovery.Crash.{recv_loop_crash}

abbrev manifest_of : Identity → Value
manifest_of i = build_manifest i.peer_id (field "claude" (text "1.0") end) (pos 300) true

abbrev listener : Discovery
listener = record { identity = alice; tcp_port = 9000; manifest = manifest_of alice; table = [] }

abbrev speaker : Discovery
speaker = record { identity = bob; tcp_port = 9001; manifest = manifest_of bob; table = [] }

abbrev from_bob : Datagram
from_bob = datagram (beacon toy_crypto 5 speaker)

abbrev address : Address
address = ("10.0.0.2", 47474)

new_peer :
    (handle_beacon toy_crypto from_bob address 7 listener).0
    ≡ ok ((address, beacon toy_crypto 7 listener) ∷ [])
unfolding handle_beacon agent_torrent.Discovery.Beacon.accept_beacon
    agent_torrent.Discovery.Beacon.open_datagram open_envelope
    agent_torrent.Identity.reraise_malformed agent_torrent.Identity.read_parts index seal
    agent_torrent.Identity.bytes_from_hex agent_torrent.Identity.Hex.from_hex
    agent_torrent.Identity.Hex.hex agent_torrent.Identity.identity
    agent_torrent.Identity.check_parts agent_torrent.Discovery.Beacon.check_beacon
    agent_torrent.Discovery.Beacon.check_body agent_torrent.Py.get
    agent_torrent.Discovery.Beacon.check_manifest agent_torrent.Checks.problem_unless
    agent_torrent.Discovery.Beacon.drop_caught agent_torrent.Discovery.Beacon.is_port beacon find
    agent_torrent.Discovery.handle_news agent_torrent.Discovery.insert agent_torrent.Discovery.learn
    agent_torrent.Identity.canonical_json agent_torrent.Identity.check_signature payload_of
    agent_torrent.Identity.peer_id_from_pubkey agent_torrent.Manifest.is_nonempty_text
    agent_torrent.Manifest.is_text_mapping agent_torrent.Manifest.manifest_problems
    agent_torrent.Manifest.raise_problems agent_torrent.Manifest.validate_manifest
    agent_torrent.Prelude.join agent_torrent.Py.all_texts lookup agent_torrent.Py.lookup_or_null
    build_manifest
new_peer = refl

handle_beacon-AllRows_example :
    AllRows alice.peer_id ((handle_beacon toy_crypto from_bob address 7 listener).1).table
handle_beacon-AllRows_example = handle_beacon-AllRows toy_crypto from_bob address 7 listener tt

abbrev events : List (Datagram × Address × ℕ)
events = (from_bob, address, 7) ∷ (from_bob, address, 9) ∷ []

find-recv_loop_example :
    find bob.peer_id ((recv_loop toy_crypto events listener).1).table
    ≡ or_else (heard toy_crypto alice.peer_id bob.peer_id events) (find bob.peer_id [])
find-recv_loop_example = find-recv_loop toy_crypto bob.peer_id events listener

-- A beacon of the other peer with a body that is null.
abbrev poison : Value
poison = seal toy_crypto bob 5 "BEACON" null

others : text_eq bob.peer_id alice.peer_id ≡ false
unfolding agent_torrent.Identity.identity
others = refl

recv_loop_crash_example :
    recv_loop toy_crypto ((datagram poison, address, 7) ∷ events) listener
    ≡ (err attribute_error, listener)
unfolding payload_of index lookup
recv_loop_crash_example =
    recv_loop_crash toy_crypto poison bob.peer_id (payload_of toy_crypto bob 5 "BEACON" null) null
      address 7 events listener (open_envelope-seal toy_crypto toy_laws (7 ∷ []) 5 "BEACON" null)
      others refl refl refl

-- A table that has heard of the other peer at the time 7, asked at the time 9.
abbrev informed : Discovery
informed = (handle_beacon toy_crypto from_bob address 7 listener).1

abbrev is_bob : PeerInfo → Bool
is_bob p = text_eq p.peer_id bob.peer_id

peers_lem_example :
    IsSorted (peers 9 informed).0
    × (count_rows is_bob (peers 9 informed).0
        ≡ count_rows
            (λ p. is_bob p && not (ltb p.last_seen (9 - peer_ttl)))
            (map value_of informed.table))
peers_lem_example = peers_lem 9 informed is_bob

-- ===== src/Peer/Node/Meeting.antt =====
-- That two peers that have started find each other by one beacon and its answer.
use Prim.Native.String.{count}
use mathlib.Core.Path.{subst}
use agent_torrent.Prelude.{
  ℕ, String, ◌≡◌, refl, sym, ap, ◌∙◌, true, false, List, [], ◌∷◌, Option, some, text_eq, eq_iff,
  Bool-cases, inl, inr, pos, ◌<◌, arith,
}
use agent_torrent.Py.{int, ok, index, lookup, PyTexts}
use agent_torrent.Manifest.{Probe, detect_harnesses, build_manifest, validate_manifest}
use agent_torrent.Manifest.Validate.{validate_manifest-build_manifest}
use agent_torrent.Ledger.{Record}
use agent_torrent.Identity.{Bytes, Crypto, identity, peer_id_from_pubkey}
use agent_torrent.Identity.Envelope.{CryptoLaws}
use agent_torrent.Discovery.Beacon.{datagram, is_port}
use agent_torrent.Discovery.{Address, find, beacon, handle_beacon}
use agent_torrent.Discovery.Meet.{IsReady, row_of, meet}
use agent_torrent.Peer.Node.{Boot, start_peer, hear}

-- A start with a port, a positive runtime limit, and the harnesses that it detects.
pub record IsBoot (boot : Boot) : Type 0 where
  pub probe : String → Probe
  pub url : Option String
  pub model : Option String
  pub detected : boot.config.harnesses ≡ detect_harnesses probe url model
  pub limited : 0 < boot.config.max_runtime_seconds
  pub port : is_port (int (pos boot.tcp_port)) ≡ true

module _ (c : Crypto) (laws : CryptoLaws c) (seed : Bytes) where
  own_id-not_empty : text_eq (identity c seed).peer_id "" ≡ false
  unfolding identity peer_id_from_pubkey
  own_id-not_empty = elim (Bool-cases (text_eq (identity c seed).peer_id "")) [
    | inl same ↦
        let empty = (eq_iff (identity c seed).peer_id "").0 same in
        absurd (omega (arith, sym (laws.digest_length (c.public_key seed)) ∙ ap count empty))
    | inr other ↦ other
  ]

  start_peer-IsReady :
      (boot : Boot) (file : Option (List Record))
      → IsBoot boot
      → IsReady c seed (start_peer (identity c seed) boot file).discovery
  unfolding start_peer build_manifest index lookup
  start_peer-IsReady boot file b = record {
    own = refl;
    port = b.port;
    valid =
        subst
          (λ h.
            let own =
              build_manifest (identity c seed).peer_id h (pos boot.config.max_runtime_seconds)
                boot.config.accepts_tasks in
            validate_manifest own ≡ ok own)
          (sym b.detected)
          (validate_manifest-build_manifest (identity c seed).peer_id b.probe b.url b.model
            boot.config.max_runtime_seconds boot.config.accepts_tasks own_id-not_empty b.limited);
    named = refl;
  }

module _ (c : Crypto) (laws : CryptoLaws c) (py : PyTexts) (seed_a seed_b : Bytes) where
  -- Take two peers of different ids that have started with a valid port, a positive runtime limit
  -- and the harnesses that they detect, under the laws of the hash and the signatures. If the
  -- second receives a beacon of the first, it answers with one datagram to the address that the
  -- beacon came from, and its table holds the first peer's row; and the table of the first, once it
  -- has received that answer, holds the second peer's row.
  pub started_peers_meet :
      (boot_a boot_b : Boot) (file_a file_b : Option (List Record)) (ts now later : ℕ)
      (addr_a addr_b : Address)
      → IsBoot boot_a
      → IsBoot boot_b
      → text_eq (identity c seed_a).peer_id (identity c seed_b).peer_id ≡ false
      → let a = start_peer (identity c seed_a) boot_a file_a in
        let b = start_peer (identity c seed_b) boot_b file_b in
        let b_later = hear c py (datagram (beacon c ts a.discovery)) addr_a now b in
        let answer = beacon c now b_later.discovery in
        let a_later = hear c py (datagram answer) addr_b later a in
        ((handle_beacon c (datagram (beacon c ts a.discovery)) addr_a now b.discovery).0
          ≡ ok ((addr_a, answer) ∷ []))
        × (find (identity c seed_a).peer_id b_later.discovery.table
            ≡ some (row_of c laws seed_a addr_a now a.discovery))
        × (find (identity c seed_b).peer_id a_later.discovery.table
            ≡ some (row_of c laws seed_b addr_b later b.discovery))
  unfolding hear start_peer find
  started_peers_meet boot_a boot_b file_a file_b ts now later addr_a addr_b ready_a ready_b apart =
      meet c laws seed_a seed_b ts now later addr_a addr_b
        (start_peer (identity c seed_a) boot_a file_a).discovery
        (start_peer (identity c seed_b) boot_b file_b).discovery
        (start_peer-IsReady c laws seed_a boot_a file_a ready_a)
        (start_peer-IsReady c laws seed_b boot_b file_b ready_b) apart refl

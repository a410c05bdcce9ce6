-- ===== src/Discovery/Sender/Tests.antt =====
-- Rounds of beacons.
use agent_torrent.Prelude.{
  ℕ, String, ◌≡◌, refl, List, [], ◌∷◌, Option, none, some, ℤ, pos, text_eq, if◌then◌else◌,
}
use agent_torrent.Py.{null, ok, err, value_error}
use agent_torrent.Identity.Samples.{toy_crypto, bob}
use agent_torrent.Discovery.{Discovery}
use agent_torrent.Discovery.Sender.{Sender, Round, sent, rpartition, targets_of, send_loop}
use agent_torrent.Discovery.Sender.Crashes.{send_loop-bad_entry}

abbrev announcer : Discovery
announcer = record { identity = bob; tcp_port = 9001; manifest = null; table = [] }

-- The ports of these tests as their texts are read.
abbrev read_int : String → Option ℤ
read_int s = if text_eq s "47474" then some (pos 47474) else none

abbrev with_entries : List String → Sender
with_entries entries = record { discovery_port = 47474; bootstrap_peers = entries }

abbrev round_at : ℕ → Round
round_at ts = record { ts = ts; send_to = λ target. sent }

split_host : rpartition "10.0.0.9:1:2" ≡ ("10.0.0.9:1", "2")
unfolding rpartition
split_host = refl

-- An entry without a colon is left out.
four_targets :
    targets_of toy_crypto read_int (with_entries ("10.0.0.9:47474" ∷ "nowhere" ∷ []))
    ≡ ok (
        ("255.255.255.255", pos 47474)
        ∷ ("127.255.255.255", pos 47474)
        ∷ ("10.0.0.9", pos 47474)
        ∷ [])
unfolding targets_of
four_targets = refl

send_loop-bad_entry_example :
    send_loop toy_crypto read_int
      (with_entries ("10.0.0.9:47474" ∷ "10.0.0.8:port" ∷ []))
      (round_at 5 ∷ round_at 6 ∷ [])
      announcer
    ≡ (err value_error, [])
unfolding rpartition
send_loop-bad_entry_example =
    send_loop-bad_entry toy_crypto read_int (with_entries ("10.0.0.9:47474" ∷ "10.0.0.8:port" ∷ []))
      ("10.0.0.9:47474" ∷ []) [] "10.0.0.8:port" (round_at 5) (round_at 6 ∷ []) announcer refl refl
      refl

-- ===== src/Discovery/Sender.antt =====
-- `Discovery._send_loop`: the targets of a round of beacons, and what is sent to them.
pub mod Crashes
mod Tests
use Prim.Native.Char.{code}
use Prim.Native.String.{◌∷◌ as push_char}
use agent_torrent.Prelude.{
  ℕ, ◌==◌, String, Bool, true, false, List, [], ◌∷◌, ◌++◌, if◌then◌else◌, Option, none, some,
  text_eq, ℤ, pos,
}
use agent_torrent.Py.{Value, Error, Result, ok, err, value_error, ◌>>=◌}
use agent_torrent.Identity.{Crypto}
use agent_torrent.Discovery.{Discovery, beacon}

-- A host and a port; the port of an entry is the integer that its text reads.
abbrev pub Target : Type 0
Target = String × ℤ

-- `discovery_port` and `bootstrap_peers`
pub record Sender : Type 0 where
  pub discovery_port : ℕ
  pub bootstrap_peers : List String

-- `_BROADCAST_TARGETS`
abbrev pub broadcast_targets : List String
broadcast_targets = "255.255.255.255" ∷ "127.255.255.255" ∷ []

-- The text before the last colon and the text behind it, if there is a colon.
unfoldable pub split_last : String → Option (String × String)
split_last String.[] = none
split_last (String.◌∷◌ c s) = elim (split_last s) [
  | some (host, port) ↦ some (String.◌∷◌ c host, port)
  | none ↦ if code c == 58 then some ("", s) else none
]

-- `entry.rpartition(":")`, without the separator
unfoldable pub rpartition : String → String × String
unfolding split_last
rpartition entry = elim (split_last entry) [ none ↦ ("", entry) | some parts ↦ parts ]

-- What `sendto` does: it sends, it raises an `OSError`, or another exception.
pub data Sending : Type 0 where
  sent : Sending
  refused : Sending
  broken : Error → Sending

-- What one round draws from the system: the time, and what a beacon to each target meets.
pub record Round : Type 0 where
  pub ts : ℕ
  pub send_to : Target → Sending

-- `parse_int` is what `int(text)` returns, unless it raises a `ValueError`.
module _ (c : Crypto) (parse_int : String → Option ℤ) (sender : Sender) where
  unfoldable pub read_port : String → Result ℤ
  read_port port = elim (parse_int port) [ none ↦ err value_error | some n ↦ ok n ]

  unfoldable pub bootstrap_targets : List String → Result (List Target)
  unfolding rpartition read_port
  bootstrap_targets [] = ok []
  bootstrap_targets (entry ∷ entries) =
      let parts = rpartition entry in
      let rest = bootstrap_targets entries in
      if text_eq parts.0 ""
      then rest
      else (do port ← read_port parts.1; targets ← rest; ok ((parts.0, port) ∷ targets))

  abbrev pub broadcasts : List String → List Target
  broadcasts [] = []
  broadcasts (host ∷ hosts) = (host, pos sender.discovery_port) ∷ broadcasts hosts

  unfoldable pub targets_of : Result (List Target)
  unfolding bootstrap_targets
  targets_of = do
    targets ← bootstrap_targets sender.bootstrap_peers
    ok (broadcasts broadcast_targets ++ targets)

  -- The loop over the targets: who was sent the beacon before an exception, if any, ended the thread.
  unfoldable pub send_beacon : (Target → Sending) → List Target → Result (Unit {0}) × List Target
  send_beacon send_to [] = (ok tt, [])
  send_beacon send_to (target ∷ targets) =
      let rest = send_beacon send_to targets in
      elim (send_to target) [
        | sent ↦ (rest.0, target ∷ rest.1)
        | refused ↦ rest
        | broken e ↦ (err e, [])
      ]

  -- One round, by its targets: every target that was sent a beacon, with that beacon.
  abbrev pub Sent : Type 0
  Sent = List (List Target × Value)

  unfoldable pub send_round : Round → Discovery → Result (List Target) → Result (Unit {0}) × Sent
  unfolding send_beacon
  send_round round d (err e) = (err e, [])
  send_round round d (ok targets) =
      let out = send_beacon round.send_to targets in (out.0, (out.1, beacon c round.ts d) ∷ [])

  unfoldable pub after_round :
      Result (Unit {0}) × Sent → Result (Unit {0}) × Sent → Result (Unit {0}) × Sent
  after_round (err e, first) rest = (err e, first)
  after_round (ok _, first) rest = (rest.0, first ++ rest.1)

  -- The rounds, until `stop`.
  unfoldable pub send_loop : List Round → Discovery → Result (Unit {0}) × Sent
  unfolding send_round after_round targets_of
  send_loop [] d = (ok tt, [])
  send_loop (round ∷ rounds) d = after_round (send_round round d targets_of) (send_loop rounds d)

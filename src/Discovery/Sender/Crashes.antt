-- ===== src/Discovery/Sender/Crashes.antt =====
-- A bootstrap entry whose port is no number.
use agent_torrent.Prelude.{
  String, ◌≡◌, refl, List, [], ◌∷◌, ◌++◌, Option, none, text_eq, false, ℤ, Bool-cases, inl, inr,
  Option-cases,
}
use agent_torrent.Py.{err, value_error}
use agent_torrent.Identity.{Crypto}
use agent_torrent.Discovery.{Discovery}
use agent_torrent.Discovery.Sender.{
  Sender, Round, rpartition, read_port, bootstrap_targets, targets_of, send_round, after_round,
  send_loop,
}

module _ (c : Crypto) (parse_int : String → Option ℤ) (sender : Sender) where
  bootstrap_targets-bad :
      (before after : List String) (entry : String)
      → text_eq (rpartition entry).0 "" ≡ false
      → parse_int (rpartition entry).1 ≡ none
      → bootstrap_targets c parse_int sender (before ++ entry ∷ after) ≡ err value_error
  unfolding bootstrap_targets read_port
  bootstrap_targets-bad [] after entry named bad = rw (named, bad, read_port) refl
  bootstrap_targets-bad (first ∷ before) after entry named bad =
      rw (bootstrap_targets-bad before after entry named bad)
        (elim (Bool-cases (text_eq (rpartition first).0 "")) [
          | inl skipped ↦ rw skipped refl
          | inr kept ↦ elim (Option-cases (parse_int (rpartition first).1)) [
            | inl e ↦ rw (kept, e, read_port) refl
            | inr (n, e) ↦ rw (kept, e, read_port) refl
          ]
        ])

  -- If one of the bootstrap entries has a host and a port whose text `int` does not read,
  -- `_send_loop` ends with a `ValueError` in its first round, before a beacon has been sent to
  -- anyone.
  pub send_loop-bad_entry :
      (before after : List String) (entry : String) (round : Round) (rounds : List Round)
      (d : Discovery)
      → sender.bootstrap_peers ≡ before ++ entry ∷ after
      → text_eq (rpartition entry).0 "" ≡ false
      → parse_int (rpartition entry).1 ≡ none
      → send_loop c parse_int sender (round ∷ rounds) d ≡ (err value_error, [])
  unfolding send_loop targets_of send_round after_round
  send_loop-bad_entry before after entry round rounds d listed named bad =
      rw (listed, bootstrap_targets-bad before after entry named bad) refl

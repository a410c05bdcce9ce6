-- ===== src/Discovery/Origin.antt =====
-- Where a row of the peer table comes from: a beacon that its own peer has signed.
use agent_torrent.Prelude.{
  ℕ, String, ◌≡◌, ◌≢◌, inl, inr, refl, sym, ap, ◌∙◌, false, [], ◌∷◌, Option, none, some, text_eq,
  eq_iff, Bool-cases, if-both, arith, ltb,
}
use agent_torrent.Py.{Value, Error, Result, ok, err, index, is_text_eq, value_error, >>=-eq-ok}
use agent_torrent.Identity.{Crypto, open_envelope}
use agent_torrent.Identity.Envelope.{CryptoLaws, sender_not_reserved}
use agent_torrent.Discovery.Beacon.{
  Datagram, garbled, too_deep, datagram, drop_caught, open_datagram, check_beacon, accept_beacon,
}
use agent_torrent.Discovery.News.{passed_unless, passed_if, body_sound}
use agent_torrent.Discovery.{
  Address, PeerInfo, Table, Discovery, insert, drop_expired, handle_news, handle_beacon,
}

-- An exception never counts as a message.
drop_caught-no_message : {A : Type 0} (e : Error) (a : A) → drop_caught e ≢ ok (some a)
unfolding drop_caught
drop_caught-no_message value_error a h = cc
drop_caught-no_message e a h = cc

open_datagram-eq-ok :
    (c : Crypto) (d : Datagram) (message : String × Value)
    → open_datagram c d ≡ ok (some message)
    → (v : Value) × (d ≡ datagram v) × (open_envelope c v ≡ ok message)
unfolding open_datagram
open_datagram-eq-ok c garbled message h = absurd (cc)
open_datagram-eq-ok c too_deep message h = absurd (cc)
open_datagram-eq-ok c (datagram v) message h =
    let no_message : (e : Error) → drop_caught e ≢ ok (some message) =
      λ e. drop_caught-no_message e message in
    (v, refl, ground (arith, no_message))

check_beacon-sender :
    (own_id : String) (message : Option (String × Value)) (s : String) (port manifest : Value)
    → check_beacon own_id message ≡ ok (some (s, port, manifest))
    → (p : Value) × (message ≡ some (s, p))
unfolding check_beacon
check_beacon-sender own_id none s port manifest h = absurd (cc)
check_beacon-sender own_id (some (sender, payload)) s port manifest h =
    let other = passed_unless (text_eq sender own_id) _ h in
    let type = >>=-eq-ok (index "type" payload) _ other.1 in
    let guard = passed_if (is_text_eq "BEACON" type.0) _ type.2 in
    let same = (body_sound sender payload s port manifest guard.1).0 in
    (payload, ap (λ x. some (x, payload)) (sym same))

pub accept_beacon-opened :
    (c : Crypto) (own_id : String) (d : Datagram) (s : String) (port manifest : Value)
    → accept_beacon c own_id d ≡ ok (some (s, port, manifest))
    → (v : Value) × (p : Value) × (d ≡ datagram v) × (open_envelope c v ≡ ok (s, p))
unfolding accept_beacon
accept_beacon-opened c own_id d s port manifest h =
    let message = >>=-eq-ok (open_datagram c d) _ h in
    let (p, same) = check_beacon-sender own_id message.0 s port manifest message.2 in
    let (v, is_v, opened) = open_datagram-eq-ok c d (s, p) (message.1 ∙ ap ok same) in
    (v, p, is_v, opened)

-- What the signatures guarantee of a name: it is no peer's.
pub not_escrow :
    (c : Crypto)
    → CryptoLaws c
    → (v : Value) (sender : String) (p : Value) → open_envelope c v ≡ ok (sender, p)
    → text_eq sender "escrow" ≡ false
not_escrow c laws v sender p opened = elim (Bool-cases (text_eq sender "escrow")) [
  | inl same ↦
      absurd ((sender_not_reserved c laws v sender p opened).1 ((eq_iff sender "escrow").0 same))
  | inr other ↦ other
]

-- No row of the table is named like the escrow account.
abbrev pub RowsNotEscrow : Table → Type 0
RowsNotEscrow [] = Unit {0}
RowsNotEscrow ((k, p) ∷ table) = (text_eq p.peer_id "escrow" ≡ false) × RowsNotEscrow table

insert-RowsNotEscrow :
    (k : String) (p : PeerInfo) (table : Table)
    → text_eq p.peer_id "escrow" ≡ false
    → RowsNotEscrow table
    → RowsNotEscrow (insert k p table)
unfolding insert
insert-RowsNotEscrow k p [] h rows = (h, tt)
insert-RowsNotEscrow k p ((j, q) ∷ table) h (other, rows) =
    if-both RowsNotEscrow (text_eq j k) (h, rows) (other, insert-RowsNotEscrow k p table h rows)

pub drop_expired-RowsNotEscrow :
    (cutoff : ℕ) (table : Table) → RowsNotEscrow table → RowsNotEscrow (drop_expired cutoff table)
unfolding drop_expired
drop_expired-RowsNotEscrow cutoff [] rows = tt
drop_expired-RowsNotEscrow cutoff ((k, p) ∷ table) (other, rows) =
    let rest = drop_expired-RowsNotEscrow cutoff table rows in
    if-both RowsNotEscrow (ltb p.last_seen cutoff) rest (other, rest)

module _ (c : Crypto) (laws : CryptoLaws c) where
  handle_news-RowsNotEscrow :
      (addr : Address) (now : ℕ) (d : Discovery) (r : Result (Option (String × Value × Value)))
      → ((s : String) (port manifest : Value)
          → r ≡ ok (some (s, port, manifest))
          → text_eq s "escrow" ≡ false)
      → RowsNotEscrow d.table
      → RowsNotEscrow ((handle_news c addr now d r).1).table
  unfolding handle_news
  handle_news-RowsNotEscrow addr now d (err e) named rows = rows
  handle_news-RowsNotEscrow addr now d (ok none) named rows = rows
  handle_news-RowsNotEscrow addr now d (ok (some (s, port, manifest))) named rows =
      insert-RowsNotEscrow s _ d.table (named s port manifest refl) rows

  pub handle_beacon-RowsNotEscrow :
      (received : Datagram) (addr : Address) (now : ℕ) (d : Discovery)
      → RowsNotEscrow d.table
      → RowsNotEscrow ((handle_beacon c received addr now d).1).table
  unfolding handle_beacon
  handle_beacon-RowsNotEscrow received addr now d =
      handle_news-RowsNotEscrow addr now d (accept_beacon c d.identity.peer_id received)
        λ s port manifest e.
          let (v, p, is_v, opened) =
            accept_beacon-opened c d.identity.peer_id received s port manifest e in
          not_escrow c laws v s p opened

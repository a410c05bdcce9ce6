-- ===== src/Discovery/Table.antt =====
-- The rows of the peer table, whatever datagrams arrive.
use mathlib.Core.Path.{subst}
use agent_torrent.Prelude.{
  ℕ, String, ◌≡◌, inl, inr, refl, sym, [], ◌∷◌, if◌then◌else◌, Option, none, some, text_eq, eq_iff,
  arith, Bool-cases,
}
use agent_torrent.Py.{Value, Result, ok, err}
use agent_torrent.Identity.{Crypto}
use agent_torrent.Discovery.Beacon.{Datagram, accept_beacon}
use agent_torrent.Discovery.{
  Address, PeerInfo, Table, Discovery, insert, drop_expired, handle_news, handle_beacon,
}
use agent_torrent.Discovery.News.{IsNews, accept_beacon_sound}

-- Every row is filed under its own id, is another peer's, and has been checked.
abbrev pub AllRows : String → Table → Type 0
AllRows own_id [] = Unit {0}
AllRows own_id ((k, p) ∷ table) =
    (k ≡ p.peer_id) × IsNews own_id p.peer_id p.tcp_port p.manifest × AllRows own_id table

insert-AllRows :
    (own_id : String) (p : PeerInfo) (table : Table)
    → IsNews own_id p.peer_id p.tcp_port p.manifest
    → AllRows own_id table
    → AllRows own_id (insert p.peer_id p table)
unfolding insert
insert-AllRows own_id p [] n h = (refl, n, tt)
insert-AllRows own_id p ((j, q) ∷ table) n h = elim (Bool-cases (text_eq j p.peer_id)) [
  | inl same ↦
      subst (λ b. AllRows own_id (if b then (j, p) ∷ table else (j, q) ∷ insert p.peer_id p table))
        (sym same) ((eq_iff j p.peer_id).0 same, n, h.2)
  | inr ne ↦
      subst (λ b. AllRows own_id (if b then (j, p) ∷ table else (j, q) ∷ insert p.peer_id p table))
        (sym ne) (h.0, h.1, insert-AllRows own_id p table n h.2)
]

drop_expired-AllRows :
    (own_id : String) (cutoff : ℕ) (table : Table)
    → AllRows own_id table
    → AllRows own_id (drop_expired cutoff table)
unfolding drop_expired
drop_expired-AllRows own_id cutoff [] h = tt
drop_expired-AllRows own_id cutoff ((k, p) ∷ table) h =
    ground (arith, drop_expired-AllRows own_id cutoff table)

module _ (c : Crypto) where
  handle_news-AllRows :
      (addr : Address) (now : ℕ) (d : Discovery) (r : Result (Option (String × Value × Value)))
      → ((s : String) (port manifest : Value)
          → r ≡ ok (some (s, port, manifest))
          → IsNews d.identity.peer_id s port manifest)
      → AllRows d.identity.peer_id d.table
      → AllRows d.identity.peer_id ((handle_news c addr now d r).1).table
  unfolding handle_news
  handle_news-AllRows addr now d (err e) news h = h
  handle_news-AllRows addr now d (ok none) news h = h
  handle_news-AllRows addr now d (ok (some (s, port, manifest))) news h =
      insert-AllRows d.identity.peer_id _ d.table (news s port manifest refl) h

  -- If every row of the peer table is filed under its peer's id, is not the table's own peer, and
  -- has a port and a valid manifest that names that peer, then this is so after `_handle_beacon`,
  -- whatever datagram arrives.
  pub handle_beacon-AllRows :
      (received : Datagram) (addr : Address) (now : ℕ) (d : Discovery)
      → AllRows d.identity.peer_id d.table
      → AllRows d.identity.peer_id ((handle_beacon c received addr now d).1).table
  unfolding handle_beacon
  handle_beacon-AllRows received addr now d =
      handle_news-AllRows addr now d (accept_beacon c d.identity.peer_id received)
        (accept_beacon_sound c d.identity.peer_id received)

-- ===== src/Discovery/Crash.antt =====
-- How one beacon ends `_recv_loop`.
use agent_torrent.Prelude.{ℕ, String, ◌≡◌, refl, ap, false, List, ◌∷◌, some, text_eq}
use agent_torrent.Py.{Value, object, text, ok, err, attribute_error, index, is_dict, end}
use agent_torrent.Identity.{Crypto, open_envelope}
use agent_torrent.Discovery.Beacon.{
  Datagram, datagram, open_datagram, check_body, check_beacon, accept_beacon,
}
use agent_torrent.Discovery.{Address, Discovery, handle_news, next_round, handle_beacon, recv_loop}
use agent_torrent.Discovery.News.{get_of_index, get?-no_dict}

module _ (c : Crypto) where
  open_datagram-found :
      (v : Value) {m : String × Value}
      → open_envelope c v ≡ ok m
      → open_datagram c (datagram v) ≡ ok (some m)
  unfolding open_datagram
  open_datagram-found v e = rw (e, open_datagram)

  check_beacon_crash :
      (own_id s : String) (p b : Value)
      → text_eq s own_id ≡ false
      → index "type" p ≡ ok (text "BEACON")
      → index "body" p ≡ ok b
      → is_dict b ≡ false
      → check_beacon own_id (some (s, p)) ≡ err attribute_error
  unfolding check_beacon check_body
  check_beacon_crash own_id s p b other type body no_dict =
      rw (other, type, get_of_index "body" (object end) p b body, get?-no_dict "tcp_port" b no_dict)
        refl

  accept_beacon_crash :
      (own_id : String) (v : Value) (s : String) (p b : Value)
      → open_envelope c v ≡ ok (s, p)
      → text_eq s own_id ≡ false
      → index "type" p ≡ ok (text "BEACON")
      → index "body" p ≡ ok b
      → is_dict b ≡ false
      → accept_beacon c own_id (datagram v) ≡ err attribute_error
  unfolding accept_beacon
  accept_beacon_crash own_id v s p b opened other type body no_dict =
      rw (open_datagram-found v opened) (check_beacon_crash own_id s p b other type body no_dict)

  -- If a datagram holds an authentic beacon of another peer whose body is not a dictionary,
  -- `_recv_loop` ends with an `AttributeError`, the table is as it was, and no later datagram is
  -- read.
  pub recv_loop_crash :
      (v : Value) (s : String) (p b : Value) (addr : Address) (now : ℕ)
      (events : List (Datagram × Address × ℕ)) (d : Discovery)
      → open_envelope c v ≡ ok (s, p)
      → text_eq s d.identity.peer_id ≡ false
      → index "type" p ≡ ok (text "BEACON")
      → index "body" p ≡ ok b
      → is_dict b ≡ false
      → recv_loop c ((datagram v, addr, now) ∷ events) d ≡ (err attribute_error, d)
  unfolding recv_loop handle_beacon next_round handle_news
  recv_loop_crash v s p b addr now events d opened other type body no_dict =
      ap
        (λ r.
          next_round c (handle_news c addr now d r)
            (recv_loop c events (handle_news c addr now d r).1))
        (accept_beacon_crash d.identity.peer_id v s p b opened other type body no_dict)

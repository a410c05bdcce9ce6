-- ===== src/Peer/Serve/Guard.antt =====
-- What an inbound connection cannot do without the key of the local user.
use mathlib.Core.Path.{subst}
use agent_torrent.Prelude.{
  String, ◌≡◌, ◌⊎◌, inl, inr, refl, ◌∙◌, true, Bool-cases, text_eq, eq_iff, arith, int_laws, ◌≤ℤ◌,
}
use agent_torrent.Py.{Value, Result, ok, err, PyTexts}
use agent_torrent.Ledger.{Ledger, Stamp, balance}
use agent_torrent.Ledger.Methods.{PostsOrRaises, Posted-balance, credit_for_work-Posts}
use agent_torrent.Ledger.Invariant.{moved-gain}
use agent_torrent.Identity.{Crypto, Identity}
use agent_torrent.Executor.{System}
use agent_torrent.Peer.Worker.{Config, handle_task_offer}
use agent_torrent.Peer.Worker.Earns.{handle_task_offer-Earned}
use agent_torrent.Peer.Control.{Served, Turn, is_loopback, reply_with, deny, handle_control}
use agent_torrent.Peer.Serve.{on_session, serve_connection}
use agent_torrent.Peer.Serve.Course.{
  Opens, Same, Course, quiet, worked, ruled, serve_connection-Course,
}

-- A posted record whose credit goes to the peer itself does not lower the spendable balance.
posted_gain :
    (job_id requester : String) (l : Ledger) (out : Result (Unit {0}) × Ledger)
    → PostsOrRaises "work" job_id requester "self" l out
    → balance "self" l ≤ℤ balance "self" out.1
unfolding PostsOrRaises
posted_gain job_id requester l (ok _, l') p =
    rw (Posted-balance _ _ _ _ "self" p) (omega (int_laws, moved-gain requester))
posted_gain job_id requester l (err _, l') e = rw e (omega arith)

-- The peer table is as it was, and the spendable balance has not fallen.
abbrev pub Harmless : Served → Served → Type 0
Harmless s t = (t.discovery ≡ s.discovery) × (balance "self" s.ledger ≤ℤ balance "self" t.ledger)

Same-Harmless : (s t : Served) → Same s t → Harmless s t
Same-Harmless s t same = (same.discovery, rw same.ledger (omega arith))

Harmless-after : (s at t : Served) → Same s at → Harmless at t → Harmless s t
Harmless-after s at t same (table, gain) = (
  table ∙ same.discovery,
  subst (λ l. balance "self" l ≤ℤ balance "self" t.ledger) same.ledger gain,
)

module _ (c : Crypto) (self : Identity) (py : PyTexts) (turn : Turn) where
  handle_control-guard :
      (sender : String) (payload : Value) (s : Served)
      → Same s (handle_control c self py turn sender payload s).1
        ⊎ ((sender ≡ self.peer_id) × (is_loopback turn.host ≡ true))
  unfolding handle_control deny reply_with
  handle_control-guard sender payload s = elim (Bool-cases (text_eq sender self.peer_id)) [
    | inr other ↦ inl (rw other (record { ledger = refl; discovery = refl }))
    | inl own ↦ elim (Bool-cases (is_loopback turn.host)) [
      | inl near ↦ inr ((eq_iff sender self.peer_id).0 own, near)
      | inr far ↦ inl (rw (own, far) (record { ledger = refl; discovery = refl }))
    ]
  ]

module _ (c : Crypto) (self : Identity) (py : PyTexts) (sys : System) (config : Config)
    (turn : Turn) (work_stamp : Stamp) where
  worked-Harmless :
      (remote : String) (payload : Value) (s : Served)
      → Harmless s (on_session (handle_task_offer c self sys config work_stamp remote payload) s).1
  unfolding on_session
  worked-Harmless remote payload s =
      elim (handle_task_offer-Earned remote work_stamp c self sys config payload
        (record { ledger = s.ledger; conn = s.conn })) [
          | inl same ↦ (refl, rw same (omega arith))
          | inr (d, j, offers, accepts, e) ↦ (
            refl,
            rw e (
                posted_gain j.job_id remote s.ledger _
                  (credit_for_work-Posts j.job_id remote work_stamp s.ledger)),
          )
        ]

  Course-Guarded :
      (s t : Served)
      → Course c self py sys config turn work_stamp s t
      → Harmless s t ⊎ (Opens c s.conn self.peer_id × (is_loopback turn.host ≡ true))
  Course-Guarded s t (quiet same) = inl (Same-Harmless s t same)
  Course-Guarded s t (worked remote payload at opens same e) =
      let done =
        (on_session (handle_task_offer c self sys config work_stamp remote payload) at).1 in
      inl (rw e (Harmless-after s at done same (worked-Harmless remote payload at)))
  Course-Guarded s t (ruled remote payload at opens same e) =
      let done = (handle_control c self py turn remote payload at).1 in
      elim (handle_control-guard c self py turn remote payload at) [
        | inl kept ↦ inl (rw e (Harmless-after s at done same (Same-Harmless at done kept)))
        | inr (own, near) ↦ inr (subst (Opens c s.conn) own opens, near)
      ]

  -- Whatever a connection brings, `_serve_connection` leaves the peer table as it is and does not
  -- lower the spendable balance, or else the connection comes from a loopback address and its first
  -- line is an authentic message of the peer itself.
  pub serve_connection-Guarded :
      (s : Served)
      → Harmless s (serve_connection c self py sys config turn work_stamp s).1
        ⊎ (Opens c s.conn self.peer_id × (is_loopback turn.host ≡ true))
  serve_connection-Guarded s =
      Course-Guarded s _ (serve_connection-Course c self py sys config turn work_stamp s)

-- ===== src/Peer/Control/Lawful.antt =====
-- What a command of the local user does to the ledger and the peer table.
use mathlib.Core.Path.{subst}
use agent_torrent.Prelude.{
  String, ◌≡◌, refl, sym, ap, ◌∙◌, ◌-◌, Bool, true, false, ◌&&◌, List, [], ◌∷◌, map, if◌then◌else◌,
  text_eq, not, ◌||◌, if-both, ◌<>◌,
}
use agent_torrent.Py.{
  Value, object, text, field, end, Result, ok, err, index, get, get?, is_text_eq, key_error,
  ledger_error, PyTexts, repr_value,
}
use agent_torrent.Py.Exec.{Exec, ◌>>=◌, continue}
use agent_torrent.Job.{new_job}
use agent_torrent.Ledger.{Ledger, can_offer}
use agent_torrent.Ledger.Final.{Run, here}
use agent_torrent.Identity.{Crypto, Identity}
use agent_torrent.Protocol.{Connection, send, control_result}
use agent_torrent.Discovery.{
  PeerInfo, Table, Discovery, value_of, is_before, insert_sorted, sort_peers, peers, peer_ttl,
}
use agent_torrent.Discovery.Origin.{RowsNotEscrow, drop_expired-RowsNotEscrow}
use agent_torrent.Peer.Delegate.Runs.{NotEscrow, delegate-Run}
use agent_torrent.Peer.Control.{
  Served, Turn, reply_with, is_ok, is_loopback, show_peers, show_ledger, run_delegate,
  delegate_args, deny, answer, answer_after, run_command, handle_control, refusal,
}

insert_sorted-NotEscrow :
    (p : PeerInfo) (l : List PeerInfo)
    → text_eq p.peer_id "escrow" ≡ false
    → NotEscrow l
    → NotEscrow (insert_sorted p l)
unfolding insert_sorted
insert_sorted-NotEscrow p [] h hs = (h, tt)
insert_sorted-NotEscrow p (q ∷ rest) h (k, ks) =
    if-both NotEscrow (is_before p q) (h, (k, ks)) (k, insert_sorted-NotEscrow p rest h ks)

sort_peers-NotEscrow :
    (table : Table) → RowsNotEscrow table → NotEscrow (sort_peers (map value_of table))
unfolding sort_peers
sort_peers-NotEscrow [] h = tt
sort_peers-NotEscrow ((k, p) ∷ table) (h, hs) =
    insert_sorted-NotEscrow p (sort_peers (map value_of table)) h (sort_peers-NotEscrow table hs)

-- From one state to the next: a run of the ledger's methods, and a table of the same peer that still
-- has no row named `escrow`.
pub record Lawful (s t : Served) : Type 0 where
  pub run : Run s.ledger t.ledger
  pub rows : RowsNotEscrow t.discovery.table
  pub own : t.discovery.identity ≡ s.discovery.identity

Run-through : {k l m : Ledger} → Run k l → Run l m → Run k m
Run-through r here = r
Run-through r (Run.step q last) = Run.step (Run-through r q) last

pub Lawful-through : {s t u : Served} → Lawful s t → Lawful t u → Lawful s u
Lawful-through p q = record { run = Run-through p.run q.run; rows = q.rows; own = q.own ∙ p.own }

abbrev pub Keeps : {A : Type 0} → Exec Served A → Type 0
Keeps m = (s : Served) → RowsNotEscrow s.discovery.table → Lawful s (m s).1

pub Keeps-of_same :
    (s t : Served)
    → t.ledger ≡ s.ledger
    → t.discovery ≡ s.discovery
    → RowsNotEscrow s.discovery.table
    → Lawful s t
Keeps-of_same s t same table h = record {
  run = subst (Run s.ledger) (sym same) here;
  rows = subst (λ d. RowsNotEscrow d.table) (sym table) h;
  own = ap (λ d. d.identity) table;
}

continue-Keeps :
    {A B : Type 0} (r : Result A) (f : A → Exec Served B)
    → ((a : A) → Keeps (f a))
    → Keeps (continue r f)
unfolding continue
continue-Keeps (ok a) f h s rows = h a s rows
continue-Keeps (err e) f h s rows = Keeps-of_same s s refl refl rows

bind-Keeps :
    {A B : Type 0} (m : Exec Served A) (f : A → Exec Served B)
    → Keeps m
    → ((a : A) → Keeps (f a))
    → Keeps (m >>= f)
bind-Keeps m f h k s rows =
    let first = h s rows in Lawful-through first (continue-Keeps (m s).0 f k (m s).1 first.rows)

reply_with-Keeps : {A : Type 0} (m : Exec Connection A) → Keeps (reply_with m)
unfolding reply_with
reply_with-Keeps m s rows = Keeps-of_same s _ refl refl rows

if-Keeps :
    {A : Type 0} (b : Bool) (m n : Exec Served A) → Keeps m → Keeps n → Keeps (if b then m else n)
if-Keeps true m n h k = h
if-Keeps false m n h k = k

module _ (c : Crypto) (self : Identity) (py : PyTexts) (turn : Turn) where
  show_peers-Keeps : Keeps (show_peers c self py turn)
  unfolding show_peers peers
  show_peers-Keeps s rows = record {
    run = here;
    rows = drop_expired-RowsNotEscrow (turn.now - peer_ttl) s.discovery.table rows;
    own = refl;
  }

  run_delegate-Keeps :
      (task_text required max_tokens max_runtime expected : Value)
      → Keeps (run_delegate c self py turn task_text required max_tokens max_runtime expected)
  unfolding run_delegate peers
  run_delegate-Keeps task_text required max_tokens max_runtime expected s rows =
      let live = drop_expired-RowsNotEscrow (turn.now - peer_ttl) s.discovery.table rows in
      let looked =
        can_offer s.ledger
        && is_ok (new_job turn.draws.job_id task_text required max_tokens max_runtime expected) in
      record {
        run =
            delegate-Run c self turn.draws turn.dial _ task_text required max_tokens max_runtime
              expected s.ledger (sort_peers-NotEscrow _ live);
        rows = if-both (λ (d : Discovery). RowsNotEscrow d.table) looked live rows;
        own = if-both (λ (d : Discovery). d.identity ≡ s.discovery.identity) looked refl refl;
      }

  delegate_args-Keeps : (args : Value) → Keeps (delegate_args c self py turn args)
  unfolding delegate_args
  delegate_args-Keeps args = continue-Keeps (index "task_text" args) _ λ task_text.
      continue-Keeps (index "required_harness" args) _ λ required.
        continue-Keeps (index "max_tokens" args) _ λ max_tokens.
          continue-Keeps (index "max_runtime_seconds" args) _ λ max_runtime.
            continue-Keeps (index "expected_output" args) _ λ expected.
              bind-Keeps
                (run_delegate c self py turn task_text required max_tokens max_runtime expected) _
                (run_delegate-Keeps task_text required max_tokens max_runtime expected)
                λ outcome s rows. Keeps-of_same s s refl refl rows

  deny-Keeps : (error : String) → Keeps (deny c self py turn error)
  unfolding deny
  deny-Keeps error = reply_with-Keeps (send c self control_result (refusal error))

  answer-Keeps : (r : Result Value) → Keeps (answer c self py turn r)
  unfolding answer
  answer-Keeps (ok value) s rows =
      reply_with-Keeps
        (send c self control_result (object (field "status" (text "ok") (field "data" value end))))
        s rows
  answer-Keeps (err (key_error k)) s rows = deny-Keeps _ s rows
  answer-Keeps (err (ledger_error e)) s rows = deny-Keeps _ s rows
  answer-Keeps (err _) s rows = Keeps-of_same s s refl refl rows

  answer_after-Keeps : (m : Exec Served Value) → Keeps m → Keeps (answer_after c self py turn m)
  unfolding answer_after
  answer_after-Keeps m h s rows =
      let first = h s rows in Lawful-through first (answer-Keeps (m s).0 (m s).1 first.rows)

  run_command-Keeps : (command args : Value) → Keeps (run_command c self py turn command args)
  unfolding run_command show_ledger
  run_command-Keeps command args =
      let show = answer_after c self py turn (show_peers c self py turn) in
      let account = answer_after c self py turn (show_ledger c self py turn) in
      let go = answer_after c self py turn (delegate_args c self py turn args) in
      let unknown = deny c self py turn ("unknown command " <> repr_value py command) in
      let run_or_deny = if is_text_eq "delegate" command then go else unknown in
      if-Keeps (is_text_eq "peers" command) show
        (if is_text_eq "ledger" command then account else run_or_deny)
        (answer_after-Keeps (show_peers c self py turn) show_peers-Keeps)
        (if-Keeps (is_text_eq "ledger" command) account run_or_deny
          (answer_after-Keeps (show_ledger c self py turn)
            λ s rows. Keeps-of_same s s refl refl rows)
          (if-Keeps (is_text_eq "delegate" command) go unknown
            (answer_after-Keeps (delegate_args c self py turn args) (delegate_args-Keeps args))
            (deny-Keeps ("unknown command " <> repr_value py command))))

  pub handle_control-Keeps :
      (sender : String) (payload : Value) → Keeps (handle_control c self py turn sender payload)
  unfolding handle_control
  handle_control-Keeps sender payload =
      if-Keeps (not (text_eq sender self.peer_id) || not (is_loopback turn.host)) _ _ (deny-Keeps _)
        (continue-Keeps (get "body" (object end) payload) _ λ body.
          continue-Keeps (get? "command" body) _ λ command.
            continue-Keeps (get "args" (object end) body) _ λ args. run_command-Keeps command args)

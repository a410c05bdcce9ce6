-- ===== src/Cli/Printed.antt =====
-- What `mesh ledger` prints of the running peer's ledger.
use mathlib.Core.List.{append-nil, append_assoc}
use agent_torrent.Prelude.{
  ℕ, String, ◌≡◌, refl, ap, sym, ◌∙◌, inl, inr, true, false, List, [], ◌∷◌, ◌++◌, ◌<>◌, Option,
  none, some, if◌then◌else◌, text_eq, take_text, Bool-cases, str_int,
}
use agent_torrent.Py.{
  text, int, null, field, end, object, index, lookup, truthy, Result, ok, PyTexts, str_value,
}
use agent_torrent.Py.Exec.{continue}
use agent_torrent.Ledger.{Ledger, Record, Stamp, balance}
use agent_torrent.Ledger.Records.{record_dict, record_dicts, records}
use agent_torrent.Identity.{Bytes, Crypto}
use agent_torrent.Identity.Envelope.{CryptoLaws}
use agent_torrent.Discovery.{Discovery}
use agent_torrent.Executor.{System}
use agent_torrent.Peer.Worker.{Config}
use agent_torrent.Peer.Control.{Turn, is_loopback}
use agent_torrent.Cli.Request.{granted, as_reply}
use agent_torrent.Cli.Wire.{reply_to, reply_to-asked, asked-ledger}
use agent_torrent.Cli.{
  Line, said, pad, cut, cell, items_of, job_or_dash, record_line, print_records, on_control_reply,
  cmd_ledger,
}

-- The id of the job, or a dash.
abbrev pub job_text : Option String → String
job_text none = "-"
job_text (some j) = if text_eq j "" then "-" else j

-- The line of a record: its kind, the first eight letters of its job's id, and its memo.
abbrev pub row : Record → String
row r = pad 8 r.kind <> (" " <> (pad 10 (take_text 8 (job_text r.job_id)) <> (" " <> r.memo)))

abbrev printed : List Line → Result (Unit {0}) × List Line
printed lines = (ok tt, lines)

abbrev pub rows : List Record → List Line
rows [] = []
rows (r ∷ rs) = said (row r) ∷ rows rs

module _ (py : PyTexts) (data_dir : String) where
  cut-job :
      (o : Option String)
      → cut 8 (job_or_dash py data_dir (elim o [ none ↦ null | some j ↦ text j ]))
        ≡ ok (take_text 8 (job_text o))
  unfolding cut job_or_dash truthy
  cut-job none = refl
  cut-job (some j) = elim (Bool-cases (text_eq j "")) [ inl e ↦ rw e refl | inr e ↦ rw e refl ]

  record_line-dict :
      (r : Record) (lines : List Line)
      → record_line py data_dir (record_dict r) lines ≡ (ok (row r), lines)
  unfolding record_line record_dict index lookup cell continue str_value
  record_line-dict r lines = rw (cut-job r.job_id) refl

  print_records-dicts :
      (rs : List Record) (lines : List Line)
      → print_records py data_dir (record_dicts rs) lines ≡ (ok tt, lines ++ rows rs)
  unfolding print_records record_dicts continue
  print_records-dicts [] lines = ap printed (sym (append-nil lines))
  print_records-dicts (r ∷ rs) lines = rw (record_line-dict r lines) (
      print_records-dicts rs (lines ++ said (row r) ∷ [])
      ∙ ap printed (append_assoc lines (said (row r) ∷ []) (rows rs)))

  cmd_ledger-rows :
      (l : Ledger)
      → cmd_ledger py data_dir false (
          granted
            (object (field "balance" (int (balance "self" l)) (field "records" (records l) end))))
        ≡ (
          ok 0,
          said ("balance: " <> (str_int (balance "self" l) <> " credits"))
              ∷ said (pad 8 "KIND" <> (" " <> (pad 10 "JOB" <> " MEMO")))
              ∷ rows l.records,
        )
  unfolding cmd_ledger on_control_reply index lookup items_of records str_value continue
  cmd_ledger-rows l = rw (print_records-dicts l.records _) refl

-- A command line and the peer of the same key and machine, over a connection that no error befalls.
module _ (c : Crypto) (laws : CryptoLaws c) (seed : Bytes) (clock own_clock : ℕ → ℕ) (py : PyTexts)
    (sys : System) (config : Config) (turn : Turn) (work_stamp : Stamp)
    (near : is_loopback turn.host ≡ true) where
  -- Let the command line and the running peer share their key, on a loopback address and a
  -- connection that no error befalls. Then `cmd_ledger` without `--json` exits with code 0 and
  -- prints, of the ledger that the peer holds, the balance of the peer's own account, the heading,
  -- and one line for each record, in order: its kind, the first eight letters of its job's id, or a
  -- dash for a record without a job, and its memo.
  pub mesh_ledger :
      (l : Ledger) (d : Discovery) (port pid : ℕ) (data_dir : String)
      → cmd_ledger py data_dir false (
          reply_to c laws seed clock own_clock py sys config turn work_stamp l d port pid "ledger"
            end)
        ≡ (
          ok 0,
          said ("balance: " <> (str_int (balance "self" l) <> " credits"))
              ∷ said (pad 8 "KIND" <> (" " <> (pad 10 "JOB" <> " MEMO")))
              ∷ rows l.records,
        )
  unfolding as_reply
  mesh_ledger l d port pid data_dir =
      ap (cmd_ledger py data_dir false) (
        reply_to-asked c laws seed clock own_clock py sys config turn work_stamp near l d port pid
          "ledger" end
        ∙ ap as_reply
            (asked-ledger c laws seed clock own_clock py sys config turn work_stamp near l d))
      ∙ cmd_ledger-rows py data_dir l

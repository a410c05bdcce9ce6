-- ===== src/Ledger/Records.antt =====
-- The records as the dictionaries that the file holds and that `records` copies.
use agent_torrent.Prelude.{List, [], ◌∷◌, none, some}
use agent_torrent.Py.{Value, Items, object, array, text, int, float, null, nil, cons, field, end}
use agent_torrent.Ledger.{Entry, Record, Ledger}

unfoldable pub entry_dict : Entry → Value
entry_dict e = object (field "account" (text e.account) (field "delta" (int e.delta) end))

unfoldable pub entry_dicts : List Entry → Items
unfolding entry_dict
entry_dicts [] = nil
entry_dicts (e ∷ entries) = cons (entry_dict e) (entry_dicts entries)

unfoldable pub record_dict : Record → Value
unfolding entry_dicts
record_dict r =
    let job_id : Value = elim r.job_id [ none ↦ null | some j ↦ text j ] in
    object (
      field "txn_id" (text r.txn_id) (
        field "kind" (text r.kind) (
          field "job_id" job_id (
            field "ts" (float r.ts)
              (field "entries" (array (entry_dicts r.entries)) (field "memo" (text r.memo) end))))))

unfoldable pub record_dicts : List Record → Items
unfolding record_dict
record_dicts [] = nil
record_dicts (r ∷ records) = cons (record_dict r) (record_dicts records)

-- `records`
unfoldable pub records : Ledger → Value
unfolding record_dicts
records ledger = array (record_dicts ledger.records)

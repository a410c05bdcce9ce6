-- ===== src/Ledger.antt =====
-- agenttorrent/ledger.py: the double-entry credit ledger. A method returns its result beside the
-- ledger that it leaves, also when it raises. What `uuid.uuid4().hex` and `time.time()` return to
-- a call is its `Stamp`. The file holds the records of the last write that has been renamed over
-- it; the lock makes each method one step.
pub mod Balance
pub mod Methods
pub mod Posting
pub mod Invariant
pub mod Sound
pub mod Moves
pub mod Final
pub mod Bounds
pub mod Jobs
pub mod Held
pub mod InEscrow
pub mod Disk
pub mod Faults
pub mod Pending
pub mod Accounts
pub mod Records
mod Tests
use agent_torrent.Prelude.{
  ℕ, String, Bool, true, false, ◌&&◌, ◌||◌, List, [], ◌∷◌, ◌++◌, ◌<>◌, text_eq, take_text,
  if◌then◌else◌, Option, none, some, ℤ, pos, negsuc, ◌+ℤ◌, leb_ℤ,
}
use agent_torrent.Py.{Result, ok, err, assertion_error, ledger_error}

-- `OPENING_BALANCE` and `JOB_PRICE`
abbrev pub opening_balance : ℕ
opening_balance = 10

abbrev pub job_price : ℕ
job_price = 1

-- `-JOB_PRICE`
abbrev pub minus_price : ℤ
minus_price = negsuc 0

pub record Entry : Type 0 where
  pub account : String
  pub delta : ℤ

pub record Record : Type 0 where
  pub txn_id : String
  pub kind : String
  pub job_id : Option String
  pub ts : ℕ
  pub entries : List Entry
  pub memo : String

pub record Ledger : Type 0 where
  pub records : List Record
  pub file : Option (List Record)

pub record Stamp : Type 0 where
  pub txn_id : String
  pub ts : ℕ

abbrev pub Method : Type 0
Method = Ledger → Result (Unit {0}) × Ledger

abbrev pub entry : String → ℤ → Entry
entry account delta = record { account = account; delta = delta }

-- `sum(e["delta"] for e in entries)`
unfoldable pub sum_deltas : List Entry → ℤ
sum_deltas [] = pos 0
sum_deltas (e ∷ entries) = e.delta +ℤ sum_deltas entries

-- `sum(e["delta"] for e in entries if e["account"] == account)`
unfoldable pub entries_balance : String → List Entry → ℤ
entries_balance account [] = pos 0
entries_balance account (e ∷ entries) =
    let rest = entries_balance account entries in
    if text_eq e.account account then e.delta +ℤ rest else rest

-- `_balance_locked`
unfoldable pub balance_locked : String → List Record → ℤ
balance_locked account [] = pos 0
balance_locked account (r ∷ records) =
    entries_balance account r.entries +ℤ balance_locked account records

-- `r["job_id"] == job_id`
unfoldable pub is_for : String → Record → Bool
is_for job_id r = elim r.job_id [ none ↦ false | some j ↦ text_eq j job_id ]

-- `_job_records`
unfoldable pub job_records : String → List Record → List Record
job_records job_id [] = []
job_records job_id (r ∷ records) =
    let rest = job_records job_id records in if is_for job_id r then r ∷ rest else rest

-- `kind in {r["kind"] for r in records}`
unfoldable pub has_kind : String → List Record → Bool
has_kind kind [] = false
has_kind kind (r ∷ records) = text_eq r.kind kind || has_kind kind records

-- `_append`: the assertion, the new record, and the rewritten file.
unfoldable pub append : String → Option String → List Entry → String → Stamp → Method
append kind job_id entries memo stamp ledger =
    let new : Record = record {
      txn_id = stamp.txn_id;
      kind = kind;
      job_id = job_id;
      ts = stamp.ts;
      entries = entries;
      memo = memo;
    } in
    let records = ledger.records ++ new ∷ [] in
    if leb_ℤ (sum_deltas entries) (pos 0) && leb_ℤ (pos 0) (sum_deltas entries)
    then (ok tt, record { records = records; file = some records })
    else (err assertion_error, ledger)

-- `__init__`, on the records that the file holds, if it exists.
unfoldable pub open_ledger : Stamp → Option (List Record) → Ledger
open_ledger stamp (some records) = record { records = records; file = some records }
open_ledger stamp none =
    (append "opening" none (entry "genesis" (negsuc 9) ∷ entry "self" (pos opening_balance) ∷ [])
      "opening balance" stamp (record { records = []; file = none })).1

unfoldable pub balance : String → Ledger → ℤ
balance account ledger = balance_locked account ledger.records

unfoldable pub can_offer : Ledger → Bool
can_offer ledger = leb_ℤ (pos job_price) (balance "self" ledger)

abbrev pub is_empty {ℓ} : {A : Type ℓ} → List A → Bool
is_empty [] = true
is_empty (x ∷ xs) = false

unfoldable pub escrow : String → String → Stamp → Method
escrow job_id worker_id stamp ledger =
    if leb_ℤ (pos job_price) (balance_locked "self" ledger.records)
    then (if is_empty (job_records job_id ledger.records)
        then append "escrow" (some job_id)
            (entry "self" minus_price ∷ entry "escrow" (pos job_price) ∷ [])
            ("escrow 1 credit for job offered to " <> take_text 8 worker_id) stamp ledger
        else (err (ledger_error ("job " <> job_id <> " already has ledger records")), ledger))
    else (err (ledger_error "balance is zero: cannot offer a task"), ledger)

-- `_require_open_escrow`
unfoldable pub require_open_escrow : String → List Record → Result (Unit {0})
require_open_escrow job_id records =
    let kinds = job_records job_id records in
    if has_kind "escrow" kinds
    then (if has_kind "settle" kinds || has_kind "refund" kinds
        then err (ledger_error ("escrow for job " <> job_id <> " already closed"))
        else ok tt)
    else err (ledger_error ("no escrow found for job " <> job_id))

unfoldable pub settle : String → String → Stamp → Method
settle job_id worker_id stamp ledger = elim (require_open_escrow job_id ledger.records) [
  | err e ↦ (err e, ledger)
  | ok _ ↦
      append "settle" (some job_id)
        (entry "escrow" minus_price ∷ entry worker_id (pos job_price) ∷ [])
        ("paid 1 credit to worker " <> take_text 8 worker_id) stamp ledger
]

unfoldable pub refund : String → Stamp → Method
refund job_id stamp ledger = elim (require_open_escrow job_id ledger.records) [
  | err e ↦ (err e, ledger)
  | ok _ ↦
      append "refund" (some job_id) (entry "escrow" minus_price ∷ entry "self" (pos job_price) ∷ [])
        "refund: job was rejected, failed, or timed out" stamp ledger
]

unfoldable pub credit_for_work : String → String → Stamp → Method
credit_for_work job_id requester_id stamp ledger =
    if has_kind "work" (job_records job_id ledger.records)
    then (err (ledger_error ("job " <> job_id <> " already credited")), ledger)
    else append "work" (some job_id)
        (entry requester_id minus_price ∷ entry "self" (pos job_price) ∷ [])
        ("earned 1 credit from requester " <> take_text 8 requester_id) stamp ledger

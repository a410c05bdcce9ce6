-- ===== src/Ledger/Methods.antt =====
-- What each method of the ledger does, on every branch.
use agent_torrent.Prelude.{
  String, ◌≡◌, ◌↔◌, refl, ap, ◌∙◌, ◌<>◌, take_text, [], ◌∷◌, ◌++◌, text_eq, arith, ◌<◌,
  if◌then◌else◌, ℤ, pos, ◌+ℤ◌, ◌≤ℤ◌, some, Bool-cases, inl, inr, leb_ℤ,
}
use agent_torrent.Py.{Error, Result, Result-cases, ok, err}
use agent_torrent.Ledger.{
  Record, Ledger, Stamp, entry, minus_price, job_price, sum_deltas, entries_balance, balance_locked,
  job_records, has_kind, is_empty, append, balance, escrow, settle, refund, credit_for_work,
  require_open_escrow,
}
use agent_torrent.Ledger.Balance.{count_for, balance-append, has_kind-count}

-- One record was added at the end, which moves one credit from `src` to `dst` for the job, and the
-- file holds the new records.
pub record Posted (kind job_id src dst : String) (l l' : Ledger) : Type 0 where
  pub new : Record
  pub appended : l'.records ≡ l.records ++ new ∷ []
  pub written : l'.file ≡ some l'.records
  pub of_kind : new.kind ≡ kind
  pub of_job : new.job_id ≡ some job_id
  pub moves : new.entries ≡ entry src minus_price ∷ entry dst (pos job_price) ∷ []

-- A method posts one record and returns, or raises and leaves the ledger alone.
unfoldable pub PostsOrRaises :
    String → String → String → String → Ledger → Result (Unit {0}) × Ledger → Type 0
PostsOrRaises kind job_id src dst l (ok _, l') = Posted kind job_id src dst l l'
PostsOrRaises kind job_id src dst l (err _, l') = l' ≡ l

raised :
    (kind job_id src dst : String) (l : Ledger) (e : Error)
    → PostsOrRaises kind job_id src dst l (err e, l)
unfolding PostsOrRaises
raised kind job_id src dst l e = refl

append-Posts :
    (kind job_id src dst memo : String) (stamp : Stamp) (l : Ledger)
    → PostsOrRaises kind job_id src dst l (
        append kind
          (some job_id)
          (entry src minus_price ∷ entry dst (pos job_price) ∷ [])
          memo
          stamp
          l)
unfolding append sum_deltas ◌+ℤ◌ PostsOrRaises
append-Posts kind job_id src dst memo stamp l = record {
  new = _;
  appended = refl;
  written = refl;
  of_kind = refl;
  of_job = refl;
  moves = refl;
}

append_succeeds :
    (kind job_id src dst memo : String) (stamp : Stamp) (l : Ledger)
    → (append kind
        (some job_id)
        (entry src minus_price ∷ entry dst (pos job_price) ∷ [])
        memo
        stamp
        l).0
      ≡ ok tt
unfolding append sum_deltas ◌+ℤ◌
append_succeeds kind job_id src dst memo stamp l = refl

pub escrow-Posts :
    (job_id worker : String) (stamp : Stamp) (l : Ledger)
    → PostsOrRaises "escrow" job_id "self" "escrow" l (escrow job_id worker stamp l)
unfolding escrow
escrow-Posts job_id worker stamp l =
    elim (Bool-cases (leb_ℤ (pos job_price) (balance_locked "self" l.records))) [
      | inr poor ↦ rw poor (raised _ _ _ _ l _)
      | inl rich ↦ rw rich (elim (Bool-cases (is_empty (job_records job_id l.records))) [
        | inl new ↦ rw new (append-Posts _ _ _ _ _ stamp l)
        | inr old ↦ rw old (raised _ _ _ _ l _)
      ])
    ]

pub settle-Posts :
    (job_id worker : String) (stamp : Stamp) (l : Ledger)
    → PostsOrRaises "settle" job_id "escrow" worker l (settle job_id worker stamp l)
unfolding settle
settle-Posts job_id worker stamp l = elim (Result-cases (require_open_escrow job_id l.records)) [
  | inl (_, e) ↦ rw (e, settle) (append-Posts _ _ _ _ _ stamp l)
  | inr (_, e) ↦ rw (e, settle) (raised _ _ _ _ l _)
]

pub refund-Posts :
    (job_id : String) (stamp : Stamp) (l : Ledger)
    → PostsOrRaises "refund" job_id "escrow" "self" l (refund job_id stamp l)
unfolding refund
refund-Posts job_id stamp l = elim (Result-cases (require_open_escrow job_id l.records)) [
  | inl (_, e) ↦ rw (e, refund) (append-Posts _ _ _ _ _ stamp l)
  | inr (_, e) ↦ rw (e, refund) (raised _ _ _ _ l _)
]

pub credit_for_work-Posts :
    (job_id requester : String) (stamp : Stamp) (l : Ledger)
    → PostsOrRaises "work" job_id requester "self" l (credit_for_work job_id requester stamp l)
unfolding credit_for_work
credit_for_work-Posts job_id requester stamp l =
    elim (Bool-cases (has_kind "work" (job_records job_id l.records))) [
      | inl old ↦ rw old (raised _ _ _ _ l _)
      | inr new ↦ rw new (append-Posts _ _ _ _ _ stamp l)
    ]

-- The job has an escrow record and neither a settle nor a refund record.
pub record IsOpen (job_id : String) (l : Ledger) : Type 0 where
  pub escrowed : 0 < count_for "escrow" job_id l.records
  pub unsettled : count_for "settle" job_id l.records ≡ 0
  pub unrefunded : count_for "refund" job_id l.records ≡ 0

require_open_escrow-counts :
    (job_id : String) (l : Ledger)
    → (require_open_escrow job_id l.records ≡ ok tt) ↔ IsOpen job_id l
unfolding require_open_escrow
require_open_escrow-counts job_id l =
    rw
      (
        has_kind-count "escrow" job_id l.records,
        has_kind-count "settle" job_id l.records,
        has_kind-count "refund" job_id l.records,
      )
      (ground arith)

pub escrow_succeeds_iff :
    (job_id worker : String) (stamp : Stamp) (l : Ledger)
    → ((escrow job_id worker stamp l).0 ≡ ok tt)
      ↔ ((pos job_price ≤ℤ balance "self" l) × (job_records job_id l.records ≡ []))
unfolding escrow balance
escrow_succeeds_iff job_id worker stamp l = ground (
  arith,
  append_succeeds "escrow" job_id "self" "escrow"
      ("escrow 1 credit for job offered to " <> take_text 8 worker) stamp l,
)

pub settle_succeeds_iff :
    (job_id worker : String) (stamp : Stamp) (l : Ledger)
    → ((settle job_id worker stamp l).0 ≡ ok tt) ↔ IsOpen job_id l
unfolding settle
settle_succeeds_iff job_id worker stamp l = ground (
  arith,
  require_open_escrow-counts job_id l,
  append_succeeds "settle" job_id "escrow" worker ("paid 1 credit to worker " <> take_text 8 worker)
      stamp l,
)

pub refund_succeeds_iff :
    (job_id : String) (stamp : Stamp) (l : Ledger)
    → ((refund job_id stamp l).0 ≡ ok tt) ↔ IsOpen job_id l
unfolding refund
refund_succeeds_iff job_id stamp l = ground (
  arith,
  require_open_escrow-counts job_id l,
  append_succeeds "refund" job_id "escrow" "self" "refund: job was rejected, failed, or timed out"
      stamp l,
)

credit_succeeds_iff :
    (job_id requester : String) (stamp : Stamp) (l : Ledger)
    → ((credit_for_work job_id requester stamp l).0 ≡ ok tt)
      ↔ (count_for "work" job_id l.records ≡ 0)
unfolding credit_for_work
credit_succeeds_iff job_id requester stamp l = ground (
  arith,
  has_kind-count "work" job_id l.records,
  append_succeeds "work" job_id requester "self"
      ("earned 1 credit from requester " <> take_text 8 requester) stamp l,
)

-- `escrow` returns without an exception exactly when the spendable balance covers the price and the
-- ledger holds no record of the job; `settle` and `refund` exactly when the job has an escrow
-- record and neither a settlement nor a refund; and `credit_for_work` exactly when the job has no
-- record of work.
pub succeeds_iff :
    (job_id worker : String) (stamp : Stamp) (l : Ledger)
    → (((escrow job_id worker stamp l).0 ≡ ok tt)
        ↔ ((pos job_price ≤ℤ balance "self" l) × (job_records job_id l.records ≡ [])))
      × (((settle job_id worker stamp l).0 ≡ ok tt) ↔ IsOpen job_id l)
      × (((refund job_id stamp l).0 ≡ ok tt) ↔ IsOpen job_id l)
      × (((credit_for_work job_id worker stamp l).0 ≡ ok tt)
          ↔ (count_for "work" job_id l.records ≡ 0))
succeeds_iff job_id worker stamp l = (
  escrow_succeeds_iff job_id worker stamp l,
  settle_succeeds_iff job_id worker stamp l,
  refund_succeeds_iff job_id stamp l,
  credit_succeeds_iff job_id worker stamp l,
)

-- One credit leaves `src` and one enters `dst`, as the account `a` sees it.
abbrev pub moved : String → String → String → ℤ
moved src dst a =
    (if text_eq src a then minus_price else pos 0) +ℤ (if text_eq dst a then pos 1 else pos 0)

entries_balance-two :
    (src dst a : String)
    → entries_balance a (entry src minus_price ∷ entry dst (pos job_price) ∷ []) ≡ moved src dst a
unfolding entries_balance ◌+ℤ◌
entries_balance-two src dst a = ground arith

pub Posted-balance :
    (kind job_id src dst : String) {l l' : Ledger} (a : String)
    → Posted kind job_id src dst l l'
    → balance a l' ≡ balance a l +ℤ moved src dst a
unfolding balance
Posted-balance kind job_id src dst {l} a p =
    ap (balance_locked a) p.appended
    ∙ balance-append a l.records p.new
    ∙ ap (λ es. balance_locked a l.records +ℤ entries_balance a es) p.moves
    ∙ ap (λ m. balance_locked a l.records +ℤ m) (entries_balance-two src dst a)

-- ===== src/Ledger/Disk.antt =====
-- Failures of the disk under the ledger of agenttorrent/ledger.py. `_append` adds its record to the list in
-- memory, and then makes the directory, writes a new file and renames it over the old one; an `OSError`
-- at any of these leaves the old file in place. `_append` is the last step of each method.
use agent_torrent.Prelude.{String, ◌≡◌, refl, inl, inr, some, Bool-cases}
use agent_torrent.Py.{ok, err, os_error, Result-cases}
use agent_torrent.Ledger.{
  Ledger, Stamp, Method, escrow, settle, refund, credit_for_work, append, sum_deltas,
  balance_locked, job_records, is_empty, job_price, require_open_escrow, has_kind,
}
use agent_torrent.Prelude.{leb_ℤ, pos, ◌+ℤ◌}

-- The method, where the disk fails as it writes its record.
unfoldable pub spoiled : Method → Method
spoiled m l = elim (m l).0 [
  | ok _ ↦ (err (os_error "write failed"), record { records = ((m l).1).records; file = l.file })
  | err e ↦ m l
]

-- The ledger in memory, as if the file held it.
abbrev pub solid : Ledger → Ledger
solid l = record { records = l.records; file = some l.records }

-- One call of the four methods.
pub data Act : Type 0 where
  escrows : String → String → Stamp → Act
  settles : String → String → Stamp → Act
  refunds : String → Stamp → Act
  credits : String → String → Stamp → Act

unfoldable pub act : Act → Method
act (escrows job_id worker stamp) = escrow job_id worker stamp
act (settles job_id worker stamp) = settle job_id worker stamp
act (refunds job_id stamp) = refund job_id stamp
act (credits job_id requester stamp) = credit_for_work job_id requester stamp

-- An act reads the list in memory only: it returns or raises the same whatever the file holds.
abbrev SameOn : Method → Ledger → Type 0
SameOn m l = ((m l).0 ≡ (m (solid l)).0) × (solid (m l).1 ≡ (m (solid l)).1)

escrow-SameOn :
    (job_id worker : String) (stamp : Stamp) (l : Ledger) → SameOn (escrow job_id worker stamp) l
unfolding escrow append sum_deltas ◌+ℤ◌
escrow-SameOn job_id worker stamp l =
    elim (Bool-cases (leb_ℤ (pos job_price) (balance_locked "self" l.records))) [
      | inr poor ↦ rw poor (refl, refl)
      | inl rich ↦ rw rich (elim (Bool-cases (is_empty (job_records job_id l.records))) [
        | inl new ↦ rw new (refl, refl)
        | inr old ↦ rw old (refl, refl)
      ])
    ]

settle-SameOn :
    (job_id worker : String) (stamp : Stamp) (l : Ledger) → SameOn (settle job_id worker stamp) l
unfolding settle append sum_deltas ◌+ℤ◌
settle-SameOn job_id worker stamp l = elim (Result-cases (require_open_escrow job_id l.records)) [
  | inl (_, e) ↦ rw (e, settle) (refl, refl)
  | inr (_, e) ↦ rw (e, settle) (refl, refl)
]

refund-SameOn : (job_id : String) (stamp : Stamp) (l : Ledger) → SameOn (refund job_id stamp) l
unfolding refund append sum_deltas ◌+ℤ◌
refund-SameOn job_id stamp l = elim (Result-cases (require_open_escrow job_id l.records)) [
  | inl (_, e) ↦ rw (e, refund) (refl, refl)
  | inr (_, e) ↦ rw (e, refund) (refl, refl)
]

credit-SameOn :
    (job_id requester : String) (stamp : Stamp) (l : Ledger)
    → SameOn (credit_for_work job_id requester stamp) l
unfolding credit_for_work append sum_deltas ◌+ℤ◌
credit-SameOn job_id requester stamp l =
    elim (Bool-cases (has_kind "work" (job_records job_id l.records))) [
      | inl old ↦ rw old (refl, refl)
      | inr new ↦ rw new (refl, refl)
    ]

pub act-SameOn : (a : Act) (l : Ledger) → SameOn (act a) l
unfolding act
act-SameOn (escrows job_id worker stamp) l = escrow-SameOn job_id worker stamp l
act-SameOn (settles job_id worker stamp) l = settle-SameOn job_id worker stamp l
act-SameOn (refunds job_id stamp) l = refund-SameOn job_id stamp l
act-SameOn (credits job_id requester stamp) l = credit-SameOn job_id requester stamp l

-- ===== src/Ledger/Faults.antt =====
-- Every run of the ledger in which any of the writes of its file may fail.
use mathlib.Core.Path.{subst}
use mathlib.Core.List.{append-nil, append_assoc}
use agent_torrent.Prelude.{
  String, ◌≡◌, ◌⊎◌, refl, ap, sym, ◌∙◌, inl, inr, false, text_eq, List, [], ◌∷◌, ◌++◌, some, none,
}
use agent_torrent.Py.{Error, Result, ok, err}
use agent_torrent.Ledger.{Record, Ledger, Stamp, open_ledger}
use agent_torrent.Ledger.Methods.{
  PostsOrRaises, escrow-Posts, settle-Posts, refund-Posts, credit_for_work-Posts,
}
use agent_torrent.Ledger.Invariant.{IsSound}
use agent_torrent.Ledger.Sound.{
  Step, escrowed, settled, refunded, credited, Reachable, opened, next, Reachable-IsSound,
}
use agent_torrent.Ledger.Disk.{
  spoiled, solid, Act, escrows, settles, refunds, credits, act, act-SameOn,
}

-- No worker or requester is named like the escrow account.
abbrev pub IsOrdinary : Act → Type 0
IsOrdinary (settles job_id worker stamp) = text_eq worker "escrow" ≡ false
IsOrdinary (credits job_id requester stamp) = text_eq requester "escrow" ≡ false
IsOrdinary _ = Unit {0}

-- A method whose write goes through, one whose write fails, or a restart from the file.
pub data DiskStep (l l' : Ledger) : Type 0 where
  went : (a : Act) → IsOrdinary a → l' ≡ (act a l).1 → DiskStep l l'
  failed : (a : Act) → IsOrdinary a → l' ≡ (spoiled (act a) l).1 → DiskStep l l'
  reread : (stamp : Stamp) → l' ≡ open_ledger stamp l.file → DiskStep l l'

pub data DiskRun : Ledger → Type 0 where
  first : {l : Ledger} (stamp : Stamp) → l ≡ open_ledger stamp none → DiskRun l
  later : {l l' : Ledger} → DiskRun l → DiskStep l l' → DiskRun l'

abbrev saved_as : List Record → Ledger
saved_as records = record { records = records; file = some records }

-- The list in memory is that of a run without failures, and the file holds the list of another, with
-- which the list in memory begins.
record IsBacked (l : Ledger) : Type 0 where
  reachable : Reachable (solid l)
  saved : List Record
  on_disk : l.file ≡ some saved
  recoverable : Reachable (saved_as saved)
  unsaved : List Record
  begins : l.records ≡ saved ++ unsaved

-- What an act does to the list and to the file.
abbrev Written : Ledger → Result (Unit {0}) × Ledger → Type 0
Written l out =
    ((r : Record) × (out.0 ≡ ok tt)
      × ((out.1).records ≡ l.records ++ r ∷ [])
      × ((out.1).file ≡ some (out.1).records))
    ⊎ ((e : Error) × (out.0 ≡ err e) × (out.1 ≡ l))

Posts-Written :
    (kind job_id src dst : String) (l : Ledger) (out : Result (Unit {0}) × Ledger)
    → PostsOrRaises kind job_id src dst l out
    → Written l out
unfolding PostsOrRaises
Posts-Written kind job_id src dst l (ok _, l') p = inl (p.new, refl, p.appended, p.written)
Posts-Written kind job_id src dst l (err e, l') q = inr (e, refl, q)

act-Written : (a : Act) (l : Ledger) → Written l (act a l)
unfolding act
act-Written (escrows job_id worker stamp) l =
    Posts-Written _ _ _ _ l _ (escrow-Posts job_id worker stamp l)
act-Written (settles job_id worker stamp) l =
    Posts-Written _ _ _ _ l _ (settle-Posts job_id worker stamp l)
act-Written (refunds job_id stamp) l = Posts-Written _ _ _ _ l _ (refund-Posts job_id stamp l)
act-Written (credits job_id requester stamp) l =
    Posts-Written _ _ _ _ l _ (credit_for_work-Posts job_id requester stamp l)

act-Step : (a : Act) (l : Ledger) → IsOrdinary a → Step l (act a l).1
unfolding act
act-Step (escrows job_id worker stamp) l o = escrowed job_id worker stamp refl
act-Step (settles job_id worker stamp) l o = settled job_id worker stamp o refl
act-Step (refunds job_id stamp) l o = refunded job_id stamp refl
act-Step (credits job_id requester stamp) l o = credited job_id requester stamp o refl

act-Reachable :
    (a : Act) (l : Ledger) → IsOrdinary a → Reachable (solid l) → Reachable (solid (act a l).1)
act-Reachable a l o r = subst Reachable (sym (act-SameOn a l).1) (next r (act-Step a (solid l) o))

went-IsBacked : (a : Act) (l : Ledger) → IsOrdinary a → IsBacked l → IsBacked (act a l).1
went-IsBacked a l o b = elim (act-Written a l) [
  | inr (e, raised, same) ↦ subst IsBacked (sym same) b
  | inl (r, done, appended, written) ↦
      let reachable = act-Reachable a l o b.reachable in
      record {
        reachable = reachable;
        saved = ((act a l).1).records;
        on_disk = written;
        recoverable = reachable;
        unsaved = [];
        begins = sym (append-nil _);
      }
]

-- The record is added in memory, and the file stays.
spoiled-went :
    (a : Act) (l : Ledger)
    → (act a l).0 ≡ ok tt
    → (spoiled (act a) l).1 ≡ record { records = ((act a l).1).records; file = l.file }
unfolding spoiled
spoiled-went a l e = rw (e, spoiled) refl

spoiled-raised :
    (a : Act) (l : Ledger) (e : Error) → (act a l).0 ≡ err e → (spoiled (act a) l).1 ≡ (act a l).1
unfolding spoiled
spoiled-raised a l e h = rw (h, spoiled) refl

failed-IsBacked :
    (a : Act) (l : Ledger) → IsOrdinary a → IsBacked l → IsBacked (spoiled (act a) l).1
failed-IsBacked a l o b = elim (act-Written a l) [
  | inr (e, raised, same) ↦ subst IsBacked (sym (spoiled-raised a l e raised ∙ same)) b
  | inl (r, done, appended, written) ↦ subst IsBacked (sym (spoiled-went a l done)) (record {
    reachable = act-Reachable a l o b.reachable;
    saved = b.saved;
    on_disk = b.on_disk;
    recoverable = b.recoverable;
    unsaved = b.unsaved ++ r ∷ [];
    begins = appended ∙ ap (λ rs. rs ++ r ∷ []) b.begins ∙ append_assoc b.saved b.unsaved _;
  })
]

reread_as :
    (stamp : Stamp) (l : Ledger) (b : IsBacked l) → open_ledger stamp l.file ≡ saved_as b.saved
unfolding open_ledger
reread_as stamp l b = rw (b.on_disk, open_ledger) refl

Reachable-IsBacked : {l : Ledger} → Reachable l → IsBacked l
Reachable-IsBacked {l} r =
    let persisted = (Reachable-IsSound r).persisted in
    let as_solid : l ≡ solid l = λ i. record { records = l.records; file = persisted i } in
    record {
      reachable = subst Reachable as_solid r;
      saved = l.records;
      on_disk = persisted;
      recoverable = subst Reachable as_solid r;
      unsaved = [];
      begins = sym (append-nil _);
    }

DiskStep-IsBacked : {l l' : Ledger} → DiskStep l l' → IsBacked l → IsBacked l'
DiskStep-IsBacked {l} (went a o e) b = subst IsBacked (sym e) (went-IsBacked a l o b)
DiskStep-IsBacked {l} (failed a o e) b = subst IsBacked (sym e) (failed-IsBacked a l o b)
DiskStep-IsBacked {l} (reread stamp e) b =
    subst IsBacked (sym (e ∙ reread_as stamp l b)) (Reachable-IsBacked b.recoverable)

DiskRun-IsBacked : {l : Ledger} → DiskRun l → IsBacked l
DiskRun-IsBacked (first stamp e) = Reachable-IsBacked (opened stamp e)
DiskRun-IsBacked (later r step) = DiskStep-IsBacked step (DiskRun-IsBacked r)

-- Let a ledger be opened for the first time and then meet any calls of its methods, where no worker
-- and no requester is named `escrow`, any of which may fail as it writes the file, and any
-- restarts. Then both the list of records in memory, and the ledger that a restart would read from
-- the file, keep the invariant of the ledger, each as if its file held it; and the list in memory
-- is that of the file and, after it, the records whose writing has failed since.
pub DiskRun-IsSound :
    {l : Ledger} (again : Stamp)
    → DiskRun l
    → IsSound (solid l)
      × IsSound (open_ledger again l.file)
      × (unsaved : List Record) × (l.records ≡ (open_ledger again l.file).records ++ unsaved)
DiskRun-IsSound {l} again run =
    let b = DiskRun-IsBacked run in
    let same = reread_as again l b in
    (
      Reachable-IsSound b.reachable,
      subst IsSound (sym same) (Reachable-IsSound b.recoverable),
      b.unsaved,
      b.begins ∙ ap (λ m. m.records ++ b.unsaved) (sym same),
    )

-- ===== src/Peer/Threads/Escrow.antt =====
-- What the credits in escrow are for.
use mathlib.Core.Path.{subst}
use agent_torrent.Prelude.{
  ℕ, zero, suc, ◌+◌, ◌≤◌, String, ◌≡◌, refl, ap, sym, ◌∙◌, true, false, List, [], ◌∷◌, ◌++◌, Option,
  none, some, if◌then◌else◌, text_eq, arith, ℤ, pos, negsuc, ◌+ℤ◌, int_laws, length,
}
use agent_torrent.Py.{Error, Result, ok, err, is_python_error}
use agent_torrent.Ledger.{Ledger, balance, escrow}
use agent_torrent.Ledger.Methods.{moved, PostsOrRaises, Posted-balance, escrow-Posts}
use agent_torrent.Peer.Delegate.{Outcome}
use agent_torrent.Peer.Threads.{
  Task, past, pick, Threads, Begun, returns, chooses, note_begun, on_reserved, reserve,
}
use agent_torrent.Peer.Threads.Tasks.{Found}
use agent_torrent.Ledger.Accounts.{balance-escrow}
use agent_torrent.Ledger.Posting.{unchanged_of_err}
use agent_torrent.Peer.Delegate.Accounts.{MovedBy}

-- How many calls have raised an exception of Python itself.
abbrev pub count_python : List (Result Outcome) → ℕ
count_python [] = 0
count_python (ok o ∷ rest) = count_python rest
count_python (err e ∷ rest) = (if is_python_error e then 1 else 0) + count_python rest

pub count_python-append :
    (rs : List (Result Outcome)) (r : Result Outcome)
    → count_python (rs ++ r ∷ []) ≡ count_python rs + count_python (r ∷ [])
count_python-append [] r = omega arith
count_python-append (ok o ∷ rs) r = count_python-append rs r
count_python-append (err e ∷ rs) r = omega (arith, count_python-append rs r)

-- The credits in escrow are those of the calls that wait, and of no more others than calls have raised
-- an exception of Python itself.
pub record IsExact (threads : Threads) : Type 0 where
  pub lost : ℕ
  pub escrowed : balance "escrow" threads.ledger ≡ pos (length threads.waiting + lost)
  pub blamed : lost ≤ count_python threads.finished

pub add_one : (n : ℕ) → pos n +ℤ pos 1 ≡ pos (suc n)
add_one n = omega int_laws

pub less_one : (n : ℕ) → pos (suc n) +ℤ negsuc 0 ≡ pos n
less_one n = omega int_laws

pub add_none : (x : ℤ) → x +ℤ pos 0 ≡ x
add_none x = omega int_laws

pub moved_in : moved "self" "escrow" "escrow" ≡ pos 1
unfolding ◌+ℤ◌
moved_in = refl

pub moved_out :
    (dst : String) → text_eq dst "escrow" ≡ false → moved "escrow" dst "escrow" ≡ negsuc 0
unfolding ◌+ℤ◌
moved_out dst h = ground arith

pub moved_past : (src : String) → text_eq src "escrow" ≡ false → moved src "self" "escrow" ≡ pos 0
unfolding ◌+ℤ◌
moved_past src h = ground arith

past-length :
    {A : Type 0} (n : ℕ) (x : A) (o : Option (A × List A))
    → Found (λ y ys. n ≡ suc (length ys)) o
    → Found (λ y ys. suc n ≡ suc (length ys)) (past x o)
unfolding past
past-length n x none h = tt
past-length n x (some (y, ys)) h = ap suc h

pub pick-length :
    {A : Type 0} (n : ℕ) (xs : List A) → Found (λ y ys. length xs ≡ suc (length ys)) (pick n xs)
unfolding pick
pick-length n [] = tt
pick-length zero (x ∷ xs) = refl
pick-length (suc n) (x ∷ xs) = past-length (length xs) x (pick n xs) (pick-length n xs)

-- The escrow account after one credit has come in, or gone out.
came_in :
    (l l' : Ledger) (n : ℕ)
    → balance "escrow" l ≡ pos n
    → MovedBy (moved "self" "escrow") l l'
    → balance "escrow" l' ≡ pos (suc n)
came_in l l' n b m =
    m "escrow"
    ∙ ap (λ x. x +ℤ moved "self" "escrow" "escrow") b
    ∙ ap (λ x. pos n +ℤ x) moved_in
    ∙ add_one n

pub went_out :
    (dst : String) (l l' : Ledger) (n : ℕ)
    → text_eq dst "escrow" ≡ false
    → balance "escrow" l ≡ pos (suc n)
    → MovedBy (moved "escrow" dst) l l'
    → balance "escrow" l' ≡ pos n
went_out dst l l' n ne b m =
    m "escrow"
    ∙ ap (λ x. x +ℤ moved "escrow" dst "escrow") b
    ∙ ap (λ x. pos (suc n) +ℤ x) (moved_out dst ne)
    ∙ less_one n

pub more_finished :
    (n : ℕ) (rs : List (Result Outcome)) (r : Result Outcome)
    → n ≤ count_python rs
    → n ≤ count_python (rs ++ r ∷ [])
more_finished n rs r h = omega (arith, h, count_python-append rs r)

-- A call that has raised an exception of Python is one to blame.
counts_one : (e : Error) → is_python_error e ≡ true → count_python (err e ∷ []) ≡ 1
counts_one e h = ground arith

pub one_more :
    (n : ℕ) (rs : List (Result Outcome)) (r : Result Outcome) (e : Error)
    → r ≡ err e
    → is_python_error e ≡ true
    → n ≤ count_python rs
    → suc n ≤ count_python (rs ++ r ∷ [])
one_more n rs r e raised python h = omega (
  arith,
  h,
  count_python-append rs r,
  ap (λ (x : Result Outcome). count_python (x ∷ [])) raised ∙ counts_one e python,
)

pub note_begun-IsExact :
    (begun : Begun) (threads : Threads) → IsExact threads → IsExact (note_begun begun threads)
unfolding note_begun
note_begun-IsExact (returns r) threads h = record {
  lost = h.lost;
  escrowed = h.escrowed;
  blamed = more_finished h.lost threads.finished r h.blamed;
}
note_begun-IsExact (chooses task) threads h = record {
  lost = h.lost;
  escrowed = h.escrowed;
  blamed = h.blamed;
}

on_reserved-IsExact :
    (task : Task) (threads : Threads) (others : List Task) (out : Result (Unit {0}) × Ledger)
    → out ≡ escrow task.draws.job_id task.worker.peer_id task.draws.escrow_stamp threads.ledger
    → IsExact threads
    → IsExact (on_reserved task out.0 (record threads { ledger = out.1; chosen = others }))
unfolding on_reserved
on_reserved-IsExact task threads others (err e, m) q h =
    let refused = ap (λ (o : Result (Unit {0}) × Ledger). o.0) (sym q) in
    let same =
      ap (λ (o : Result (Unit {0}) × Ledger). o.1) q
      ∙ unchanged_of_err _ _ _ _ threads.ledger _ e
          (escrow-Posts task.draws.job_id task.worker.peer_id task.draws.escrow_stamp
            threads.ledger)
          refused in
    record {
      lost = h.lost;
      escrowed = ap (balance "escrow") same ∙ h.escrowed;
      blamed = more_finished h.lost threads.finished (err e) h.blamed;
    }
on_reserved-IsExact task threads others (ok _, m) q h =
    let done = ap (λ (o : Result (Unit {0}) × Ledger). o.0) (sym q) in
    let moves =
      subst (MovedBy (moved "self" "escrow") threads.ledger)
        (sym (ap (λ (o : Result (Unit {0}) × Ledger). o.1) q))
        (balance-escrow task.draws.job_id task.worker.peer_id task.draws.escrow_stamp threads.ledger
          done) in
    record {
      lost = h.lost;
      escrowed =
          came_in threads.ledger m (length threads.waiting + h.lost) h.escrowed moves
          ∙ ap pos (omega arith);
      blamed = h.blamed;
    }

pub reserve-IsExact :
    (o : Option (Task × List Task)) (threads : Threads)
    → IsExact threads
    → IsExact (reserve o threads)
unfolding reserve
reserve-IsExact none threads h = h
reserve-IsExact (some (task, others)) threads h = on_reserved-IsExact task threads others _ refl h

-- A credit for work does not touch the escrow account.
pub work_kept :
    (job_id requester : String) (l : Ledger) (out : Result (Unit {0}) × Ledger)
    → text_eq requester "escrow" ≡ false
    → PostsOrRaises "work" job_id requester "self" l out
    → balance "escrow" out.1 ≡ balance "escrow" l
unfolding PostsOrRaises
work_kept job_id requester l (ok _, l') ne p =
    Posted-balance "work" job_id requester "self" "escrow" p
    ∙ ap (λ x. balance "escrow" l +ℤ x) (moved_past requester ne)
    ∙ add_none (balance "escrow" l)
work_kept job_id requester l (err _, l') ne e = ap (balance "escrow") e

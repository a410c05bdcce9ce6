-- ===== src/Ledger/InEscrow.antt =====
-- How many jobs can be in escrow at once.
use agent_torrent.Prelude.{
  String, ◌≡◌, ap, false, List, [], ◌∷◌, text_eq, arith, ◌+◌, ◌≤◌, ◌<◌, pos, ◌≤ℤ◌, int_laws,
  pos_part, neg_part, All, All-map, All-zip, length, text_eq_sym,
}
use agent_torrent.Ledger.{Record, Ledger, balance}
use agent_torrent.Ledger.Balance.{count_all, count_for}
use agent_torrent.Ledger.Methods.{IsOpen}
use agent_torrent.Ledger.Jobs.{
  AllNamed, size, without, IsClosedOnce, without-AllNamed, without-IsClosedOnce, count_all-split,
  count_for-without_ne, closings_covered,
}
use agent_torrent.Ledger.Sound.{Reachable, Reachable-IsSound}
use agent_torrent.Ledger.Held.{Reachable-Named}

-- No two of the ids are equal.
abbrev pub AllDistinct : List String → Type 0
AllDistinct [] = Unit {0}
AllDistinct (j ∷ ids) = All (λ i. text_eq j i ≡ false) ids × AllDistinct ids

-- The job has been put in escrow, and not closed.
abbrev IsHeldIn : List Record → String → Type 0
IsHeldIn records j =
    (0 < count_for "escrow" j records)
    × (count_for "settle" j records ≡ 0)
    × (count_for "refund" j records ≡ 0)

without-IsHeldIn :
    (j i : String) (records : List Record)
    → text_eq j i ≡ false
    → IsHeldIn records i
    → IsHeldIn (without j records) i
without-IsHeldIn j i records ne (e, s, r) =
    let other = text_eq_sym j i ne in
    (
      omega (arith, e, count_for-without_ne "escrow" i j records other),
      omega (arith, s, count_for-without_ne "settle" i j records other),
      omega (arith, r, count_for-without_ne "refund" i j records other),
    )

held_covered :
    (ids : List String) (records : List Record)
    → AllNamed records
    → IsClosedOnce records
    → All (IsHeldIn records) ids
    → AllDistinct ids
    → length ids + (count_all "settle" records + count_all "refund" records)
      ≤ count_all "escrow" records
held_covered [] records named once held distinct =
    omega (arith, closings_covered (size records) records (omega arith) named once)
held_covered (j ∷ ids) records named once ((e, s, r), held) (apart, distinct) =
    let rest =
      held_covered ids (without j records) (without-AllNamed j records named)
        (without-IsClosedOnce j records once)
        (All-zip (λ i. text_eq j i ≡ false) (IsHeldIn records) (IsHeldIn (without j records)) ids
          (λ i. without-IsHeldIn j i records) apart held)
        distinct in
    omega (
      arith,
      rest,
      e,
      s,
      r,
      count_all-split "settle" j records,
      count_all-split "refund" j records,
      count_all-split "escrow" j records,
    )

-- X
pub held_within_escrow :
    {l : Ledger} (ids : List String)
    → Reachable l
    → All (λ j. IsOpen j l) ids
    → AllDistinct ids
    → pos (length ids) ≤ℤ balance "escrow" l
held_within_escrow {l} ids r is_open distinct =
    let s = Reachable-IsSound r in
    let covered =
      held_covered ids l.records (Reachable-Named r) s.closed_once
        (All-map (λ j. IsOpen j l) (IsHeldIn l.records) ids
          (λ j o. (o.escrowed, o.unsettled, o.unrefunded)) is_open)
        distinct in
    omega (int_laws, ap pos_part s.reserved, ap neg_part s.reserved, covered)

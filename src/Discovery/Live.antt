-- ===== src/Discovery/Live.antt =====
-- What `peers` returns: the live rows of the table, sorted by their ids.
use Prim.Native.Nat.{Ordering, compare as compare_ℕ}
use Prim.Native.Char.{code}
use Prim.Native.String.{compare, then}
use Prim.Native.Nat.compare.{zero-suc, suc-zero, suc-suc}
use Prim.Native.String.compare.{nil-nil, nil-cons, cons-nil, cons-cons}
use agent_torrent.Prelude.{
  ℕ, zero, suc, ◌+◌, ◌-◌, String, ◌≡◌, refl, sym, ap, ◌∙◌, Bool, true, false, not, ◌&&◌, List, [],
  ◌∷◌, map, if◌then◌else◌, ltb, arith, Bool-cases, inl, inr,
}
use agent_torrent.Discovery.{
  PeerInfo, Table, Discovery, peer_ttl, value_of, drop_expired, is_before, insert_sorted,
  sort_peers, peers,
}

abbrev flip : Ordering → Ordering
flip Ordering.lt = Ordering.gt
flip Ordering.eq = Ordering.eq
flip Ordering.gt = Ordering.lt

compare-flip_nat : (m n : ℕ) → compare_ℕ m n ≡ flip (compare_ℕ n m)
compare-flip_nat zero zero = refl
compare-flip_nat zero (suc n) = (λ i. zero-suc n i) ∙ sym (ap flip (λ i. suc-zero n i))
compare-flip_nat (suc m) zero = (λ i. suc-zero m i) ∙ sym (ap flip (λ i. zero-suc m i))
compare-flip_nat (suc m) (suc n) =
    (λ i. suc-suc m n i) ∙ compare-flip_nat m n ∙ sym (ap flip (λ i. suc-suc n m i))

then-flip : (o p : Ordering) → (then) (flip o) (flip p) ≡ flip ((then) o p)
then-flip Ordering.lt p = refl
then-flip Ordering.eq p = refl
then-flip Ordering.gt p = refl

compare-flip : (s t : String) → compare s t ≡ flip (compare t s)
compare-flip String.[] String.[] = (λ i. nil-nil i) ∙ sym (ap flip (λ i. nil-nil i))
compare-flip String.[] (String.◌∷◌ d t) =
    (λ i. nil-cons d t i) ∙ sym (ap flip (λ i. cons-nil d t i))
compare-flip (String.◌∷◌ c s) String.[] =
    (λ i. cons-nil c s i) ∙ sym (ap flip (λ i. nil-cons c s i))
compare-flip (String.◌∷◌ c s) (String.◌∷◌ d t) =
    (λ i. cons-cons c d s t i)
    ∙ (λ i. (then) (compare-flip_nat (code c) (code d) i) (compare-flip s t i))
    ∙ then-flip (compare_ℕ (code d) (code c)) (compare t s)
    ∙ sym (ap flip (λ i. cons-cons d c t s i))

abbrev not_after : Ordering → Bool
not_after Ordering.gt = false
not_after _ = true

not_after-flip : (o : Ordering) → not_after o ≡ false → not_after (flip o) ≡ true
not_after-flip Ordering.gt h = refl
not_after-flip _ h = absurd (cc)

is_before-not_after : (p q : PeerInfo) → is_before p q ≡ not_after (compare p.peer_id q.peer_id)
unfolding is_before
is_before-not_after p q = refl

is_before-total : (p q : PeerInfo) → is_before p q ≡ false → is_before q p ≡ true
is_before-total p q h =
    is_before-not_after q p
    ∙ ap not_after (compare-flip q.peer_id p.peer_id)
    ∙ not_after-flip (compare p.peer_id q.peer_id) (sym (is_before-not_after p q) ∙ h)

abbrev pub IsSorted : List PeerInfo → Type 0
IsSorted [] = Unit {0}
IsSorted (p ∷ []) = Unit {0}
IsSorted (p ∷ q ∷ rest) = (is_before p q ≡ true) × IsSorted (q ∷ rest)

before_either :
    (b : Bool) (q p r : PeerInfo) (xs ys : List PeerInfo)
    → is_before q p ≡ true
    → is_before q r ≡ true
    → IsSorted (if b then p ∷ xs else r ∷ ys)
    → IsSorted (q ∷ (if b then p ∷ xs else r ∷ ys))
before_either true q p r xs ys e f h = (e, h)
before_either false q p r xs ys e f h = (f, h)

insert_sorted-IsSorted :
    (p : PeerInfo) (l : List PeerInfo) → IsSorted l → IsSorted (insert_sorted p l)
unfolding insert_sorted
insert_sorted-IsSorted p [] h = tt
insert_sorted-IsSorted p (q ∷ []) h = elim (Bool-cases (is_before p q)) [
  | inl e ↦ rw e (e, tt)
  | inr e ↦ rw e (is_before-total p q e, tt)
]
insert_sorted-IsSorted p (q ∷ r ∷ rest) h = elim (Bool-cases (is_before p q)) [
  | inl e ↦ rw e (e, h)
  | inr e ↦ rw e (
      before_either (is_before p r) q p r (r ∷ rest) (insert_sorted p rest) (is_before-total p q e)
        h.0 (insert_sorted-IsSorted p (r ∷ rest) h.1))
]

sort_peers-IsSorted : (l : List PeerInfo) → IsSorted (sort_peers l)
unfolding sort_peers
sort_peers-IsSorted [] = tt
sort_peers-IsSorted (p ∷ rest) =
    insert_sorted-IsSorted p (sort_peers rest) (sort_peers-IsSorted rest)

-- How many rows pass a test.
abbrev pub count_rows : (PeerInfo → Bool) → List PeerInfo → ℕ
count_rows f [] = 0
count_rows f (p ∷ rest) = (if f p then 1 else 0) + count_rows f rest

insert_sorted-count_rows :
    (f : PeerInfo → Bool) (p : PeerInfo) (l : List PeerInfo)
    → count_rows f (insert_sorted p l) ≡ (if f p then 1 else 0) + count_rows f l
unfolding insert_sorted
insert_sorted-count_rows f p [] = refl
insert_sorted-count_rows f p (q ∷ rest) = ground (arith, insert_sorted-count_rows f p rest)

sort_peers-count_rows :
    (f : PeerInfo → Bool) (l : List PeerInfo) → count_rows f (sort_peers l) ≡ count_rows f l
unfolding sort_peers
sort_peers-count_rows f [] = refl
sort_peers-count_rows f (p ∷ rest) =
    rw (insert_sorted-count_rows f p (sort_peers rest), sort_peers-count_rows f rest) refl

drop_expired-count_rows :
    (f : PeerInfo → Bool) (cutoff : ℕ) (table : Table)
    → count_rows f (map value_of (drop_expired cutoff table))
      ≡ count_rows (λ p. f p && not (ltb p.last_seen cutoff)) (map value_of table)
unfolding drop_expired
drop_expired-count_rows f cutoff [] = refl
drop_expired-count_rows f cutoff ((k, p) ∷ table) =
    ground (arith, drop_expired-count_rows f cutoff table)

peers-IsSorted : (now : ℕ) (d : Discovery) → IsSorted (peers now d).0
unfolding peers
peers-IsSorted now d = sort_peers-IsSorted (map value_of (drop_expired (now - peer_ttl) d.table))

peers-count_rows :
    (now : ℕ) (d : Discovery) (f : PeerInfo → Bool)
    → count_rows f (peers now d).0
      ≡ count_rows (λ p. f p && not (ltb p.last_seen (now - peer_ttl))) (map value_of d.table)
unfolding peers
peers-count_rows now d f =
    sort_peers-count_rows f (map value_of (drop_expired (now - peer_ttl) d.table))
    ∙ drop_expired-count_rows f (now - peer_ttl) d.table

-- In what `peers` returns no row stands before one whose id is smaller, and whatever test is
-- applied to rows, as many of them pass it as rows of the table that pass it and were seen no
-- longer ago than the time limit: each live row is returned, as often as the table holds it, and no
-- other.
pub peers_lem :
    (now : ℕ) (d : Discovery) (f : PeerInfo → Bool)
    → IsSorted (peers now d).0
      × (count_rows f (peers now d).0
          ≡ count_rows (λ p. f p && not (ltb p.last_seen (now - peer_ttl))) (map value_of d.table))
peers_lem now d f = (peers-IsSorted now d, peers-count_rows now d f)

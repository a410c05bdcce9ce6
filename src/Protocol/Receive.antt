-- ===== src/Protocol/Receive.antt =====
-- What `recv` returns and raises, whatever arrives.
use mathlib.Core.Path.{subst}
use agent_torrent.Prelude.{
  ◌≡◌, ◌⊎◌, inl, inr, refl, ap, sym, ◌∙◌, Bool, true, false, String, List, Option, some, none,
  arith, Option-cases, if-both, text_eq, eq_iff, if◌then◌else◌,
}
use agent_torrent.Py.Raises.{Raises, Raises-ok, Raises-err, Raises-bind}
use agent_torrent.Py.{
  Value, object, Fields, end, Error, Result, ok, err, index, get, attribute_error, value_error,
  recursion_error, overflow_error, malformed_envelope, bad_type_or_sender, sender_mismatch,
  bad_signature, is_one_of, unexpected_type, is_protocol_error, >>=-eq-ok, lookup, Result-cases,
  ok-injective,
}
use agent_torrent.Identity.{Crypto, open_envelope}
use agent_torrent.Identity.Envelope.{Authentic, open_envelope_iff}
use agent_torrent.Identity.Failures.{IsRefusal, open_envelope-Raises}
use agent_torrent.Protocol.Verify.{
  Read, too_long, late, broken, eof, garbled, too_deep, line, summarize, as_unverifiable, open_line,
  check_remote, check_message, receive,
}

-- A `ProtocolError`, or the `AttributeError` of a body that is no dictionary.
unfoldable pub IsMessageFailure : Error → Type 0
IsMessageFailure e = (is_protocol_error e ≡ true) ⊎ (e ≡ attribute_error)

-- One of these; the `RecursionError` of a line that is nested too deep; or the `OverflowError` of a
-- timeout that is too large.
unfoldable pub IsReceiveFailure : Read → Error → Type 0
IsReceiveFailure r e =
    IsMessageFailure e
    ⊎ (((r ≡ too_deep) × (e ≡ recursion_error)) ⊎ ((r ≡ too_long) × (e ≡ overflow_error)))

unverifiable-protocol : (e : Error) → IsRefusal e → IsMessageFailure (as_unverifiable e)
unfolding IsRefusal IsMessageFailure
unverifiable-protocol (malformed_envelope x) h = inl refl
unverifiable-protocol bad_type_or_sender h = inl refl
unverifiable-protocol sender_mismatch h = inl refl
unverifiable-protocol bad_signature h = inl refl
unverifiable-protocol value_error h = inl refl
unverifiable-protocol _ h = elim h [ inl a ↦ absurd (cc) | inr b ↦ absurd (cc) ]

opened-Raises :
    (r : Result (String × Value))
    → Raises IsRefusal r
    → Raises {A = String × Value} IsMessageFailure
        (elim r [ ok (sender, payload) ↦ ok (sender, payload) | err e ↦ err (as_unverifiable e) ])
opened-Raises (ok (sender, payload)) h = Raises-ok _
opened-Raises (err e) h = Raises-err _ (unverifiable-protocol e (h.at e refl))

open_line-Raises : (c : Crypto) (r : Read) → Raises (IsReceiveFailure r) (open_line c r)
unfolding open_line IsReceiveFailure IsMessageFailure
open_line-Raises c too_long = Raises-err _ (inr (inr (refl, refl)))
open_line-Raises c late = Raises-err _ (inl (inl refl))
open_line-Raises c (broken s) = Raises-err _ (inl (inl refl))
open_line-Raises c eof = Raises-err _ (inl (inl refl))
open_line-Raises c garbled = Raises-err _ (inl (inl refl))
open_line-Raises c too_deep = Raises-err _ (inr (inl (refl, refl)))
open_line-Raises c (line v) =
    let message = opened-Raises (open_envelope c v) (open_envelope-Raises c v) in
    record { at = λ e h. inl (message.at e h) }

get-Raises : (k : String) (default v : Value) → Raises IsMessageFailure (get k default v)
unfolding get IsMessageFailure
get-Raises k default (object d) = elim (Option-cases (lookup k d)) [
  | inl e ↦ rw (e, get) (Raises-ok default)
  | inr (v, e) ↦ rw (e, get) (Raises-ok v)
]
get-Raises k default _ = Raises-err _ (inr refl)

summarize-Raises : (body : Value) → Raises IsMessageFailure (summarize body)
unfolding summarize IsMessageFailure
summarize-Raises (object d) = Raises-ok _
summarize-Raises _ = Raises-err _ (inr refl)

check_remote-Raises :
    (remote : Option String) (s : String) → Raises IsMessageFailure (check_remote remote s)
unfolding check_remote IsMessageFailure
check_remote-Raises none s = Raises-ok _
check_remote-Raises (some known) s =
    if-both (Raises IsMessageFailure) (text_eq s known) (Raises-ok _) (Raises-err _ (inl refl))

check_message-Raises :
    (expected : List String) (remote : Option String) (s : String) (p t : Value)
    → index "type" p ≡ ok t
    → Raises IsMessageFailure (check_message expected remote s p)
unfolding check_message IsMessageFailure
check_message-Raises expected remote s p t e = rw e (
    Raises-bind (get "body" (object end) p) _ (get-Raises _ _ p) λ body.
      Raises-bind (summarize body) _ (summarize-Raises body) λ _.
        Raises-bind (check_remote remote s) _ (check_remote-Raises remote s) λ _.
          if-both (Raises IsMessageFailure) (is_one_of expected t) (Raises-ok _)
            (Raises-err _ (inl refl)))

-- The line of a message that has been opened.
open_line-eq-ok :
    (c : Crypto) (r : Read) (s : String) (p : Value)
    → open_line c r ≡ ok (s, p)
    → (v : Value) × (r ≡ line v) × (open_envelope c v ≡ ok (s, p))
unfolding open_line
open_line-eq-ok c (line v) s p h = (v, refl, ground arith)
open_line-eq-ok c _ s p h = cc

pub receive-Raises :
    (c : Crypto) (expected : List String) (remote : Option String) (r : Read)
    → Raises (IsReceiveFailure r) (receive c expected remote r)
unfolding receive IsReceiveFailure
receive-Raises c expected remote r = elim (Result-cases (open_line c r)) [
  | inr (e, h) ↦ rw h (Raises-err e ((open_line-Raises c r).at e h))
  | inl ((s, p), h) ↦
      let opened = open_line-eq-ok c r s p h in
      let a = (open_envelope_iff c opened.0 s p).0 opened.2 in
      let checked = check_message-Raises expected remote s p _ a.has_type in
      rw h (record { at = λ e q. inl (checked.at e q) })
]

summarize-eq-ok :
    (body : Value) {u : Unit {0}} → summarize body ≡ ok u → (d : Fields) × (body ≡ object d)
unfolding summarize
summarize-eq-ok (object d) h = (d, refl)
summarize-eq-ok _ h = cc

check_remote-eq-ok :
    (remote : Option String) (s : String) {u : Unit {0}}
    → check_remote remote s ≡ ok u
    → (remote ≡ none) ⊎ (remote ≡ some s)
unfolding check_remote
check_remote-eq-ok none s h = inl refl
check_remote-eq-ok (some known) s h = ground (arith, eq_iff s known)

expected_type :
    (b : Bool) (expected : List String) (got : Value) (m m' : String × Value)
    → (if b then ok m else err (unexpected_type expected got)) ≡ ok m'
    → (m' ≡ m) × (b ≡ true)
expected_type true expected got m m' h = (sym (ok-injective h), refl)
expected_type false expected got m m' h = cc

check_message-eq-ok :
    (expected : List String) (remote : Option String) (s s' : String) (p p' : Value)
    → check_message expected remote s p ≡ ok (s', p')
    → (s' ≡ s)
      × (p' ≡ p)
      × ((t : Value) × (index "type" p ≡ ok t) × (is_one_of expected t ≡ true))
      × ((d : Fields) × (get "body" (object end) p ≡ ok (object d)))
      × ((remote ≡ none) ⊎ (remote ≡ some s))
unfolding check_message
check_message-eq-ok expected remote s s' p p' h =
    let type = >>=-eq-ok (index "type" p) _ h in
    let body = >>=-eq-ok (get "body" (object end) p) _ type.2 in
    let read = >>=-eq-ok (summarize body.0) _ body.2 in
    let dict = summarize-eq-ok body.0 read.1 in
    let same = >>=-eq-ok (check_remote remote s) _ read.2 in
    let last = expected_type (is_one_of expected type.0) expected type.0 (s, p) (s', p') same.2 in
    (
      ap (λ (m : String × Value). m.0) last.0,
      ap (λ (m : String × Value). m.1) last.0,
      (type.0, type.1, last.1),
      (dict.0, body.1 ∙ ap ok dict.1),
      check_remote-eq-ok remote s same.1,
    )

-- If `recv` returns a message, it stood on the line that was read, in an authentic envelope of its
-- sender; its type is one that the caller expects, its body is a dictionary, and its sender is the
-- peer that the connection has been talking to, if that peer is known.
pub receive_sound :
    (c : Crypto) (expected : List String) (remote : Option String) (r : Read) (s : String)
    (p : Value)
    → receive c expected remote r ≡ ok (s, p)
    → (v : Value) × (r ≡ line v)
      × Authentic c v s p
      × ((t : Value) × (index "type" p ≡ ok t) × (is_one_of expected t ≡ true))
      × ((d : Fields) × (get "body" (object end) p ≡ ok (object d)))
      × ((remote ≡ none) ⊎ (remote ≡ some s))
unfolding receive
receive_sound c expected remote r s p h =
    let message = >>=-eq-ok (open_line c r) _ h in
    let checked = check_message-eq-ok expected remote _ s _ p message.2 in
    let opened =
      open_line-eq-ok c r s p (message.1 ∙ ap ok (λ i. (sym checked.0 i, sym checked.1 i))) in
    (
      opened.0,
      opened.1,
      (open_envelope_iff c opened.0 s p).0 opened.2,
      (checked.2.0, ap (index "type") checked.1 ∙ checked.2.1, checked.2.2),
      (checked.3.0, ap (get "body" (object end)) checked.1 ∙ checked.3.1),
      subst (λ x. (remote ≡ none) ⊎ (remote ≡ some x)) (sym checked.0) checked.4,
    )

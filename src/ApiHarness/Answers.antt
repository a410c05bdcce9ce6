-- ===== src/ApiHarness/Answers.antt =====
-- What the script takes of the answer that a call has brought.
use agent_torrent.Prelude.{
  String, ◌≡◌, ◌≢◌, ◌⊎◌, inl, inr, refl, sym, ap, ◌∙◌, Bool, true, false, if◌then◌else◌, Option,
  none, some, Bool-cases, Option-cases, is_blank, false≢true_of,
}
use agent_torrent.Py.{
  Value, Items, null, object, array, text, nil, cons, end, lookup, ok, index, get, get?, truthy,
  PyTexts, >>=-eq-ok, ok-injective, ◌>>=◌,
}
use agent_torrent.ApiHarness.{
  or_default, first_item, is_blank_value, content_of, blank_reason, judge, extract_text,
}

-- The payload's first choice holds a message with this text.
pub record Answers (payload : Value) (s : String) : Type 0 where
  pub first : Value
  pub rest : Items
  pub message : Value
  pub listed : index "choices" payload ≡ ok (array (cons first rest))
  pub said : index "message" first ≡ ok message
  pub content : index "content" message ≡ ok (text s)
  pub shown : is_blank s ≡ false

-- What `get` returns stands in the dictionary, unless it is `None`.
index-of_get : (k : String) (v x : Value) → get? k v ≡ ok x → truthy x ≡ true → index k v ≡ ok x
unfolding get index truthy
index-of_get k (object d) x h t = elim (Option-cases (lookup k d)) [
  | inl e ↦
      let found : ok null ≡ ok x = sym (rw (e, get) refl) ∙ h in
      false≢true_of (truthy x) t (ap truthy (sym (ok-injective found)))
  | inr (v, e) ↦ let found : ok v ≡ ok x = sym (rw (e, get) refl) ∙ h in rw (e, index) found
]
index-of_get k _ x h t = absurd (cc)

-- A value that is not its default was there.
chosen :
    (v default x : Value) → or_default v default ≡ x → (v ≡ x) × (truthy v ≡ true) ⊎ (x ≡ default)
unfolding or_default
chosen v default x h = elim (Bool-cases (truthy v)) [
  | inl t ↦ inl (sym (rw t refl) ∙ h, t)
  | inr f ↦ inr (sym h ∙ rw f refl)
]

blank_value :
    (v : Value) → is_blank_value v ≡ ok false → (s : String) × (v ≡ text s) × (is_blank s ≡ false)
unfolding is_blank_value
blank_value (text s) h = (s, refl, ok-injective h)
blank_value _ h = absurd (cc)

-- Only a list has a first item with fields.
first_of_list :
    (choices first : Value) (k : String) (x : Value)
    → first_item choices ≡ ok first
    → get? k first ≡ ok x
    → (rest : Items) × (choices ≡ array (cons first rest))
unfolding first_item get
first_of_list (array (cons v rest)) first k x h g =
    (rest, ap (λ u. array (cons u rest)) (ok-injective h))
first_of_list (text s) first k x h g = absurd (cc)
first_of_list _ first k x h g = absurd (cc)

text_injective : {s t : String} → text s ≡ text t → s ≡ t
text_injective {s} h = ap (λ v. elim v [ text u ↦ u | _ ↦ s ]) h

true_not_false : true ≢ false
true_not_false = λ e. false≢true_of true refl e

null_not_text : {s : String} → null ≢ text s
null_not_text h = cc

not_blank : {s : String} → s ≡ "" → is_blank s ≢ false
unfolding is_blank
not_blank e h = absurd (true_not_false (ap is_blank (sym e) ∙ h))

content_said :
    (payload choices : Value) (s : String)
    → index "choices" payload ≡ ok choices
    → content_of choices ≡ ok (text s)
    → is_blank s ≡ false
    → Answers payload s
unfolding content_of get lookup
content_said payload choices s listed h shown =
    let first = >>=-eq-ok (first_item choices) _ h in
    let message = >>=-eq-ok (get? "message" first.0) _ first.2 in
    let content = >>=-eq-ok (get? "content" (or_default message.0 (object end))) _ message.2 in
    let (rest, list) = first_of_list choices first.0 "message" message.0 first.1 message.1 in
    elim (chosen content.0 (text "") (text s) (ok-injective content.2)) [
      | inr empty ↦ absurd (not_blank (text_injective empty) shown)
      | inl (same, there) ↦
          elim (chosen message.0 (object end) (or_default message.0 (object end)) refl) [
            | inr nothing ↦
                let empty : ok null ≡ ok content.0 =
                  ap (get? "content") (sym nothing) ∙ content.1 in
                absurd (null_not_text (ok-injective empty ∙ same))
            | inl (kept, full) ↦ record {
              first = first.0;
              rest = rest;
              message = message.0;
              listed = listed ∙ ap ok list;
              said = index-of_get "message" first.0 message.0 message.1 full;
              content =
                  index-of_get "content" message.0 (text s)
                    (ap (get? "content") kept ∙ content.1 ∙ ap ok same)
                    (ap truthy (sym same) ∙ there);
              shown = shown;
            }
          ]
    ]

some_not_none :
    {v w : Value} {reason : String} → ◌≢◌ {A = Value × Option String} (v, some reason) (w, none)
some_not_none h = absurd (cc)

judged_blank :
    (py : PyTexts) (choices v : Value) (full : Bool)
    → (if full
        then (◌>>=◌ {Y = Value × Option String}
            (blank_reason py choices)
            λ reason. ok (text "", some reason))
        else ok (text "", some "response has no choices"))
      ≢ ok (v, none)
judged_blank py choices v true h =
    let (reason, made, e) = >>=-eq-ok (blank_reason py choices) _ h in
    some_not_none (ok-injective e)
judged_blank py choices v false h = some_not_none (ok-injective h)

-- An answer that is shown is the text, which is not blank.
shown_answer :
    (py : PyTexts) (choices answer v : Value) (blank : Bool)
    → judge py choices answer blank ≡ ok (v, none)
    → (blank ≡ false) × (answer ≡ v)
unfolding judge
shown_answer py choices answer v true h = absurd (judged_blank py choices v (truthy choices) h)
shown_answer py choices answer v false h =
    (refl, ap (λ (m : Value × Option String). m.0) (ok-injective h))

empty_shown :
    (answer : Value) (s : String) → ok (text "") ≡ ok answer → answer ≡ text s → is_blank s ≢ false
empty_shown answer s none_there e = not_blank (text_injective (sym (ok-injective none_there ∙ e)))

answer_said :
    (payload choices answer : Value) (s : String) (full : Bool)
    → index "choices" payload ≡ ok choices ⊎ (full ≡ false)
    → (if full then content_of choices else ok (text "")) ≡ ok answer
    → answer ≡ text s
    → is_blank s ≡ false
    → Answers payload s
answer_said payload choices answer s true (inl listed) h e shown =
    content_said payload choices s listed (h ∙ ap ok e) shown
answer_said payload choices answer s true (inr absurd_full) h e shown =
    absurd (true_not_false absurd_full)
answer_said payload choices answer s false listed h e shown =
    absurd (empty_shown answer s h e shown)

-- The list of choices that the payload holds, unless there is none.
choices_listed :
    (payload listed : Value)
    → get? "choices" payload ≡ ok listed
    → let choices = or_default listed (array nil) in
      index "choices" payload ≡ ok choices ⊎ (truthy choices ≡ false)
unfolding or_default truthy
choices_listed payload listed h = elim (Bool-cases (truthy listed)) [
  | inl full ↦ inl (rw full (index-of_get "choices" payload listed h full))
  | inr empty ↦ inr (rw empty refl)
]

pub extract_text-shown :
    (py : PyTexts) (payload v : Value)
    → extract_text py payload ≡ ok (v, none)
    → (s : String) × (v ≡ text s) × Answers payload s
unfolding extract_text
extract_text-shown py payload v h =
    let listed = >>=-eq-ok (get? "choices" payload) _ h in
    let choices = or_default listed.0 (array nil) in
    let answer =
      >>=-eq-ok (if truthy choices then content_of choices else ok (text "")) _ listed.2 in
    let blank = >>=-eq-ok (is_blank_value answer.0) _ answer.2 in
    let (clear, same) = shown_answer py choices answer.0 v blank.0 blank.2 in
    let (s, is_s, shown) = blank_value answer.0 (blank.1 ∙ ap ok clear) in
    (
      s,
      sym same ∙ is_s,
      answer_said payload choices answer.0 s (truthy choices)
          (choices_listed payload listed.0 listed.1) answer.1 is_s shown,
    )

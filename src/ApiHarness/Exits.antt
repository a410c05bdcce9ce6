-- ===== src/ApiHarness/Exits.antt =====
-- When the script exits with code 0, and what it prints then.
use agent_torrent.Prelude.{
  ℕ, String, ◌≡◌, ◌≢◌, refl, sym, ap, ◌∙◌, Bool, true, false, if◌then◌else◌, Option, none, some,
  text_eq, arith,
}
use agent_torrent.Py.{Value, text, Result, ok, PyTexts, >>=-eq-ok, ok-injective}
use agent_torrent.Manifest.{default_model}
use agent_torrent.ApiHarness.{
  Request, build_request, extract_text, Fetched, answered, http_error, failed, raised, Exit,
  rstrip_slash, Setting, or_text, print_answer, on_fetched, call_api, not_set, with_url, main,
}
use agent_torrent.ApiHarness.Answers.{Answers, extract_text-shown}

one_not_zero : ◌≢◌ {A = ℕ} 1 0
one_not_zero h = omega (arith, h)

two_not_zero : ◌≢◌ {A = ℕ} 2 0
two_not_zero h = omega (arith, h)

-- A result that is not this one comes from the other branch.
passed_over :
    (b : Bool) (x : Exit) (r : Result Exit) (e : Exit)
    → (if b then ok x else r) ≡ ok e
    → (x ≢ e)
    → (r ≡ ok e) × (b ≡ false)
passed_over true x r e h other = absurd (other (ok-injective h))
passed_over false x r e h other = (h, refl)

module _ (py : PyTexts) (fetch : Request → Fetched) where
  printed :
      (extracted : Value × Option String) (e : Exit)
      → print_answer py fetch extracted ≡ e
      → e.code ≡ 0
      → (extracted ≡ (extracted.0, none)) × (e.out ≡ some extracted.0)
  unfolding print_answer
  printed (v, none) e h zero_code = (refl, ap (λ (x : Exit). x.out) (sym h))
  printed (v, some error) e h zero_code =
      absurd (one_not_zero (ap (λ (x : Exit). x.code) h ∙ zero_code))

  fetched_answer :
      (base_url : String) (f : Fetched) (e : Exit)
      → on_fetched py fetch base_url f ≡ ok e
      → e.code ≡ 0
      → (payload : Value) × (s : String) × (f ≡ answered payload)
        × (e.out ≡ some (text s))
        × Answers payload s
  unfolding on_fetched
  fetched_answer base_url (answered payload) e h zero_code =
      let extracted = >>=-eq-ok (extract_text py payload) _ h in
      let (none_wrong, out) = printed extracted.0 e (ok-injective extracted.2) zero_code in
      let (s, is_s, answers) =
        extract_text-shown py payload extracted.0.0 (extracted.1 ∙ ap ok none_wrong) in
      (payload, s, refl, out ∙ ap some is_s, answers)
  fetched_answer base_url (http_error n detail) e h zero_code =
      absurd (one_not_zero (ap (λ (x : Exit). x.code) (ok-injective h) ∙ zero_code))
  fetched_answer base_url (failed reason) e h zero_code =
      absurd (one_not_zero (ap (λ (x : Exit). x.code) (ok-injective h) ∙ zero_code))
  fetched_answer base_url (raised x) e h zero_code = absurd (cc)

  -- The request that the script makes.
  abbrev pub request_of : Setting → String → Request
  request_of setting url =
      build_request (rstrip_slash url) (or_text setting.api_key "local")
        (or_text setting.model default_model) setting.max_tokens setting.prompt

  not_set_fails : (e : Exit) → ok (not_set py fetch) ≡ ok e → e.code ≢ 0
  not_set_fails e h zero_code =
      two_not_zero (ap (λ (x : Exit). x.code) (ok-injective h) ∙ zero_code)

  with_url-IsAnswered :
      (setting : Setting) (found : Option String) (e : Exit)
      → with_url py fetch setting found ≡ ok e
      → e.code ≡ 0
      → (url : String) × (payload : Value) × (s : String) × (found ≡ some url)
        × (fetch (request_of setting url) ≡ answered payload)
        × (e.out ≡ some (text s))
        × Answers payload s
  unfolding with_url call_api
  with_url-IsAnswered setting none e h zero_code = absurd (not_set_fails e h zero_code)
  with_url-IsAnswered setting (some url) e h zero_code =
      let (called, set) =
        passed_over (text_eq url "") (not_set py fetch) (call_api py fetch setting url) e h
          (λ same. not_set_fails e (ap ok same) zero_code) in
      let (payload, s, fetched, out, answers) =
        fetched_answer (rstrip_slash url) (fetch (request_of setting url)) e called zero_code in
      (url, payload, s, refl, fetched, out, answers)

  -- If the script exits with code 0, then a base URL is set, the call of that URL has brought a
  -- JSON value, and what the script prints is the text, which is not blank, of the message of the
  -- value's first choice.
  pub main-IsAnswered :
      (setting : Setting) (e : Exit)
      → main py fetch setting ≡ ok e
      → e.code ≡ 0
      → (url : String) × (payload : Value) × (s : String) × (setting.base_url ≡ some url)
        × (fetch (request_of setting url) ≡ answered payload)
        × (e.out ≡ some (text s))
        × Answers payload s
  unfolding main
  main-IsAnswered setting e = with_url-IsAnswered setting setting.base_url e

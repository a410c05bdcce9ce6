-- ===== src/ApiHarness.antt =====
-- agenttorrent/api_harness.py: the script that makes one call of a local model's HTTP interface.
pub mod Answers
pub mod Exits
mod Tests
use Prim.Native.Char.{code}
use agent_torrent.Prelude.{
  ℕ, ◌==◌, ◌&&◌, String, Bool, true, false, not, List, [], ◌∷◌, ◌<>◌, if◌then◌else◌, Option, none,
  some, text_eq, ℤ, pos, negsuc, is_blank, str_int, take_text,
}
use agent_torrent.Py.{
  Value, Items, object, array, text, int, nil, cons, Fields, field, end, Error, Result, ok, err,
  attribute_error, type_error, key_error, ◌>>=◌, get, get?, truthy, PyTexts, repr_value,
}
use agent_torrent.Manifest.{default_model}

-- The URL, the body before its encoding, and the headers of a POST.
pub record Request : Type 0 where
  pub url : String
  pub body : Value
  pub headers : Fields

-- `_build_request`
unfoldable pub build_request : String → String → String → ℤ → String → Request
build_request base_url api_key model max_tokens prompt = record {
  url = base_url <> "/v1/chat/completions";
  body = object (
      field "model" (text model) (
        field "max_tokens" (int max_tokens) (
          field "messages"
            (array
              (cons (object (field "role" (text "user") (field "content" (text prompt) end))) nil))
            end)));
  headers =
      field "content-type" (text "application/json")
        (field "authorization" (text ("Bearer " <> api_key)) end);
}

-- `v or default`
unfoldable pub or_default : Value → Value → Value
or_default v default = if truthy v then v else default

-- `v[0]` of a value that is not empty. A text gives a text of one character, which has no `get`.
unfoldable pub first_item : Value → Result Value
first_item (array (cons v rest)) = ok v
first_item (text s) = ok (text (take_text 1 s))
first_item (object d) = err (key_error "0")
first_item _ = err type_error

-- `not v.strip()`, which only a text has
unfoldable pub is_blank_value : Value → Result Bool
is_blank_value (text s) = ok (is_blank s)
is_blank_value _ = err attribute_error

-- `(choices[0].get("message") or {}).get("content") or ""`
unfoldable pub content_of : Value → Result Value
unfolding or_default first_item
content_of choices = do
  first ← first_item choices
  message ← get? "message" first
  content ← get? "content" (or_default message (object end))
  ok (or_default content (text ""))

module _ (py : PyTexts) where
  -- The text of the error that a blank answer makes.
  unfoldable pub blank_reason : Value → Result String
  unfolding first_item
  blank_reason choices = do
    first ← first_item choices
    finish_reason ← get? "finish_reason" first
    ok ("no text in response (finish_reason=" <> (repr_value py finish_reason <> ")"))

  -- What is returned of the text, by whether it is blank.
  unfoldable pub judge : Value → Value → Bool → Result (Value × Option String)
  unfolding blank_reason
  judge choices answer false = ok (answer, none)
  judge choices answer true =
      if truthy choices
      then (do reason ← blank_reason choices; ok (text "", some reason))
      else ok (text "", some "response has no choices")

  -- `_extract_text`
  unfoldable pub extract_text : Value → Result (Value × Option String)
  unfolding content_of is_blank_value judge or_default
  extract_text payload = do
    listed ← get? "choices" payload
    let choices = or_default listed (array nil)
    answer ← if truthy choices then content_of choices else ok (text "")
    blank ← is_blank_value answer
    judge choices answer blank

-- What `urlopen` and `json.load` meet: an answer that holds a JSON value; an `HTTPError`, by its code
-- and the first 2000 characters of its body; an error that the code catches, by its text; or any
-- other exception, as of an answer that is no JSON text.
pub data Fetched : Type 0 where
  answered : Value → Fetched
  http_error : ℤ → String → Fetched
  failed : String → Fetched
  raised : Error → Fetched

-- The exit code and the texts printed to the two streams.
pub record Exit : Type 0 where
  pub code : ℕ
  pub out : Option Value
  pub errors : Option String

abbrev pub exit_with : ℕ → String → Exit
exit_with n message = record { code = n; out = none; errors = some message }

-- `base_url.rstrip("/")`
unfoldable pub is_slashes : String → Bool
is_slashes String.[] = true
is_slashes (String.◌∷◌ c s) = code c == 47 && is_slashes s

unfoldable pub rstrip_slash : String → String
unfolding is_slashes
rstrip_slash String.[] = ""
rstrip_slash (String.◌∷◌ c s) =
    let rest = rstrip_slash s in if is_slashes (String.◌∷◌ c s) then "" else String.◌∷◌ c rest

-- `os.environ.get(…)` of the three variables, and the arguments of the command line.
pub record Setting : Type 0 where
  pub base_url : Option String
  pub api_key : Option String
  pub model : Option String
  pub max_tokens : ℤ
  pub prompt : String

abbrev pub or_text : Option String → String → String
or_text none default = default
or_text (some s) default = s

module _ (py : PyTexts) (fetch : Request → Fetched) where
  -- The end of `main`, by what `_extract_text` returns.
  unfoldable pub print_answer : Value × Option String → Exit
  print_answer (answer, none) = record { code = 0; out = some answer; errors = none }
  print_answer (answer, some error) = exit_with 1 ("api harness: " <> error)

  unfoldable pub on_fetched : String → Fetched → Result Exit
  unfolding print_answer
  on_fetched base_url (answered payload) = do
    extracted ← extract_text py payload
    ok (print_answer extracted)
  on_fetched base_url (http_error n detail) = ok (
      exit_with 1
        ("api harness: HTTP " <> (str_int n <> (" from " <> (base_url <> (": " <> detail))))))
  on_fetched base_url (failed reason) =
      ok (exit_with 1 ("api harness: request to " <> (base_url <> (" failed: " <> reason))))
  on_fetched base_url (raised e) = err e

  -- `main`, after the command line has been parsed.
  unfoldable pub call_api : Setting → String → Result Exit
  unfolding on_fetched build_request rstrip_slash
  call_api setting url =
      let base_url = rstrip_slash url in
      let request =
        build_request base_url (or_text setting.api_key "local")
          (or_text setting.model default_model) setting.max_tokens setting.prompt in
      on_fetched base_url (fetch request)

  abbrev pub not_set : Exit
  not_set =
      exit_with 2
        "api harness: AGENTTORRENT_API_BASE_URL is not set in the sandbox (start the worker with --env-passthrough AGENTTORRENT_API_BASE_URL)"

  -- `main`, by the base URL that the environment holds.
  unfoldable pub with_url : Setting → Option String → Result Exit
  unfolding call_api
  with_url setting none = ok not_set
  with_url setting (some url) = if text_eq url "" then ok not_set else call_api setting url

  unfoldable pub main : Setting → Result Exit
  unfolding with_url
  main setting = with_url setting setting.base_url

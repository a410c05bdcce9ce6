-- ===== src/Manifest.antt =====
-- agenttorrent/manifest.py: the capability manifest that a peer advertises.
pub mod Validate
mod Tests
use agent_torrent.Prelude.{
  String, Bool, true, false, not, ◌&&◌, ◌||◌, List, [], ◌∷◌, ◌++◌, ◌<>◌, text_eq, join, is_blank,
  if◌then◌else◌, Option, none, some, ℤ, pos, zero, suc, strip, first_line,
}
use agent_torrent.Checks.{problem_unless}
use agent_torrent.Py.{
  Value, object, text, null, int, boolean, Fields, field, end, lookup, lookup_or_null, is_text,
  is_boolean, is_positive, all_texts, Result, ok, err, manifest_error,
}

-- `api_harness.DEFAULT_MODEL`
abbrev pub default_model : String
default_model = "default"

-- What the probe of one command line tool meets: `shutil.which` finds none, the run of `--version`
-- raises, or it exits with a code and the texts of its two streams.
pub data Probe : Type 0 where
  not_found : Probe
  failed : Probe
  exited : ℤ → String → String → Probe

-- `proc.stdout or proc.stderr`
unfoldable pub output_or : String → String → String
output_or out errors = if text_eq out "" then errors else out

unfoldable pub version_of : String → String
version_of out = let line = first_line (strip out) in if is_blank out then "unknown" else line

-- One round of the loop over `KNOWN_HARNESSES`; `found` is what the later rounds add.
unfoldable pub probe_one : String → Probe → Fields → Fields
unfolding version_of output_or
probe_one name (exited (pos zero) out errors) found =
    field name (text (version_of (output_or out errors))) found
probe_one name _ found = found

-- `found["api"]`, by the two environment variables
unfoldable pub probe_api : Option String → Option String → Fields
probe_api none model = end
probe_api (some url) model =
    let name : String = elim model [ none ↦ default_model | some m ↦ m ] in
    if text_eq url "" then end else field "api" (text ("openai-chat-api/" <> name)) end

-- `probe` is what the system answers for a tool's name; `url` and `model` are the values of
-- `AGENTTORRENT_API_BASE_URL` and `AGENTTORRENT_API_MODEL`.
unfoldable pub detect_harnesses : (String → Probe) → Option String → Option String → Fields
unfolding probe_one probe_api
detect_harnesses probe url model =
    probe_one "claude" (probe "claude") (probe_one "codex" (probe "codex") (probe_api url model))

unfoldable pub build_manifest : String → Fields → ℤ → Bool → Value
build_manifest peer_id harnesses max_runtime_seconds accepts_tasks = object (
    field "peer_id" (text peer_id) (
      field "harnesses" (object harnesses) (
        field "max_runtime_seconds" (int max_runtime_seconds)
          (field "accepts_tasks" (boolean accepts_tasks) end))))

-- `isinstance(v, str) and v`
unfoldable pub is_nonempty_text : Value → Bool
is_nonempty_text (text s) = not (text_eq s "")
is_nonempty_text _ = false

-- `isinstance(v, dict)` with texts for values
unfoldable pub is_text_mapping : Value → Bool
unfolding all_texts
is_text_mapping (object d) = all_texts d
is_text_mapping _ = false

unfoldable pub manifest_problems : Fields → List String
manifest_problems manifest =
    let at = λ (k : String). lookup_or_null k manifest in
    problem_unless (is_nonempty_text (at "peer_id")) "peer_id must be a non-empty string"
    ++ (problem_unless (is_text_mapping (at "harnesses"))
          "harnesses must be a mapping of name to version string"
        ++ (problem_unless (is_positive (at "max_runtime_seconds"))
              "max_runtime_seconds must be a positive integer"
            ++ problem_unless (is_boolean (at "accepts_tasks")) "accepts_tasks must be a boolean"))

unfoldable pub raise_problems : List String → Value → Result Value
raise_problems [] manifest = ok manifest
raise_problems (p ∷ problems) manifest = err (manifest_error (join "; " (p ∷ problems)))

unfoldable pub validate_manifest : Value → Result Value
validate_manifest (object manifest) = raise_problems (manifest_problems manifest) (object manifest)
validate_manifest _ = err (manifest_error "manifest is not an object")

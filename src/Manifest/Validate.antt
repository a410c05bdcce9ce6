-- ===== src/Manifest/Validate.antt =====
-- What `validate_manifest` lets through, and that a peer's own manifest passes.
use agent_torrent.Prelude.{
  ap, ◌∙◌, ℕ, String, ◌≡◌, refl, Bool, true, false, List, [], ◌∷◌, Option, pos, ◌<◌, arith, ◌⊎◌,
  inl, inr, text_eq,
}
use agent_torrent.Checks.{problem_unless, positive_int, is_positive-pos, passed, passed_last}
use agent_torrent.Py.{
  Error, Value, object, text, int, boolean, Fields, lookup, lookup_or_null, all_texts, ok, err,
  is_boolean, manifest_error,
}
use agent_torrent.Manifest.{
  Probe, probe_one, probe_api, detect_harnesses, build_manifest, is_nonempty_text, is_text_mapping,
  manifest_problems, raise_problems, validate_manifest,
}

-- A manifest as its typed fields.
pub record Manifest : Type 0 where
  pub peer_id : String
  pub harnesses : Fields
  pub max_runtime_seconds : ℕ
  pub accepts_tasks : Bool

pub record Describes (d : Fields) (m : Manifest) : Type 0 where
  pub at_peer_id : lookup_or_null "peer_id" d ≡ text m.peer_id
  pub at_harnesses : lookup_or_null "harnesses" d ≡ object m.harnesses
  pub at_max_runtime_seconds :
      lookup_or_null "max_runtime_seconds" d ≡ int (pos m.max_runtime_seconds)
  pub at_accepts_tasks : lookup_or_null "accepts_tasks" d ≡ boolean m.accepts_tasks
  pub peer_id_nonempty : text_eq m.peer_id "" ≡ false
  pub versions_texts : all_texts m.harnesses ≡ true
  pub max_runtime_positive : 0 < m.max_runtime_seconds

nonempty_text :
    (v : Value) → is_nonempty_text v ≡ true → (s : String) × (v ≡ text s) × (text_eq s "" ≡ false)
unfolding is_nonempty_text
nonempty_text (text s) h = (s, refl, ground arith)
nonempty_text _ h = cc

text_mapping :
    (v : Value) → is_text_mapping v ≡ true → (d : Fields) × (v ≡ object d) × (all_texts d ≡ true)
unfolding is_text_mapping
text_mapping (object d) h = (d, refl, h)
text_mapping _ h = cc

boolean_value : (v : Value) → is_boolean v ≡ true → (b : Bool) × (v ≡ boolean b)
boolean_value (boolean b) h = (b, refl)
boolean_value _ h = cc

described : (d : Fields) → manifest_problems d ≡ [] → (m : Manifest) × Describes d m
unfolding manifest_problems
described d clean =
    let p = passed _ _ _ clean in
    let q = passed _ _ _ p.1 in
    let r = passed _ _ _ q.1 in
    let id = nonempty_text _ p.0 in
    let harnesses = text_mapping _ q.0 in
    let runtime = positive_int _ r.0 in
    let accepts = boolean_value _ (passed_last _ _ r.1) in
    (
      record {
        peer_id = id.0;
        harnesses = harnesses.0;
        max_runtime_seconds = runtime.0;
        accepts_tasks = accepts.0;
      },
      record {
        at_peer_id = id.1;
        at_harnesses = harnesses.1;
        at_max_runtime_seconds = runtime.1;
        at_accepts_tasks = accepts.1;
        peer_id_nonempty = id.2;
        versions_texts = harnesses.2;
        max_runtime_positive = runtime.2;
      },
    )

no_problems : (d : Fields) (m : Manifest) → Describes d m → manifest_problems d ≡ []
unfolding manifest_problems problem_unless is_nonempty_text is_text_mapping
no_problems d m h = rw (
  h.at_peer_id,
  h.at_harnesses,
  h.at_max_runtime_seconds,
  h.at_accepts_tasks,
  h.peer_id_nonempty,
  h.versions_texts,
  is_positive-pos _ h.max_runtime_positive,
)

raised :
    (problems : List String) (v w : Value)
    → raise_problems problems v ≡ ok w
    → (problems ≡ []) × (w ≡ v)
unfolding raise_problems
raised [] v w h = (refl, cc)
raised (p ∷ problems) v w h = cc

-- The value is a dictionary that holds the fields of a manifest.
abbrev pub IsManifest : Value → Type 0
IsManifest v = (d : Fields) × (v ≡ object d) × (m : Manifest) × Describes d m

pub validate_manifest_sound : (v w : Value) → validate_manifest v ≡ ok w → (w ≡ v) × IsManifest v
unfolding validate_manifest
validate_manifest_sound (object d) w h =
    let r = raised (manifest_problems d) _ _ h in
    let m = described d r.0 in (r.1, (d, refl, m.0, m.1))
validate_manifest_sound _ w h = cc

validate_manifest_complete :
    (d : Fields) (m : Manifest) → Describes d m → validate_manifest (object d) ≡ ok (object d)
unfolding validate_manifest raise_problems
validate_manifest_complete d m h = rw (no_problems d m h)

raise_problems-total :
    (problems : List String) (v : Value)
    → (raise_problems problems v ≡ ok v)
      ⊎ ((s : String) × (raise_problems problems v ≡ err (manifest_error s)))
unfolding raise_problems
raise_problems-total [] v = inl refl
raise_problems-total (p ∷ problems) v = inr (_, refl)

validate_manifest_total :
    (v : Value)
    → (validate_manifest v ≡ ok v) ⊎ ((s : String) × (validate_manifest v ≡ err (manifest_error s)))
unfolding validate_manifest
validate_manifest_total (object d) = raise_problems-total (manifest_problems d) (object d)
validate_manifest_total _ = inr (_, refl)

refused-IsManifest : (v : Value) (e : Error) → validate_manifest v ≡ err e → ¬ IsManifest v
refused-IsManifest v e refused (d, is_object, m, h) =
    let accepted = ap validate_manifest is_object ∙ validate_manifest_complete d m h in cc

-- On every value, either the value is a dictionary that holds the four fields of a manifest, each
-- of its type (the peer id not empty, the harnesses a dictionary of texts, the runtime limit
-- positive, and a Boolean), and `validate_manifest` returns it as it is; or it is no such
-- dictionary, and `validate_manifest` raises a `ManifestError`.
pub validate_manifest_decides :
    (v : Value)
    → ((validate_manifest v ≡ ok v) × IsManifest v)
      ⊎ ((s : String) × (validate_manifest v ≡ err (manifest_error s)) × ¬ IsManifest v)
validate_manifest_decides v = elim (validate_manifest_total v) [
  | inl e ↦ inl (e, (validate_manifest_sound v v e).1)
  | inr (s, e) ↦ inr (s, e, refused-IsManifest v _ e)
]

all_texts-probe_one :
    (name : String) (p : Probe) (found : Fields)
    → all_texts found ≡ true
    → all_texts (probe_one name p found) ≡ true
unfolding all_texts probe_one
all_texts-probe_one name p found h = ground arith

all_texts-probe_api : (url model : Option String) → all_texts (probe_api url model) ≡ true
unfolding all_texts probe_api
all_texts-probe_api url model = ground arith

all_texts-detect_harnesses :
    (probe : String → Probe) (url model : Option String)
    → all_texts (detect_harnesses probe url model) ≡ true
unfolding detect_harnesses
all_texts-detect_harnesses probe url model =
    all_texts-probe_one _ (probe "claude") _
      (all_texts-probe_one _ (probe "codex") _ (all_texts-probe_api url model))

-- If the peer's id is not empty and its runtime limit is positive, the manifest that it builds of
-- the harnesses that it detects passes `validate_manifest`, whatever the probes and the environment
-- say.
pub validate_manifest-build_manifest :
    (peer_id : String) (probe : String → Probe) (url model : Option String) (limit : ℕ)
    (accepts_tasks : Bool)
    → text_eq peer_id "" ≡ false
    → 0 < limit
    → let own =
        build_manifest peer_id (detect_harnesses probe url model) (pos limit) accepts_tasks in
      validate_manifest own ≡ ok own
unfolding build_manifest lookup_or_null lookup
validate_manifest-build_manifest peer_id probe url model limit accepts_tasks h p =
    validate_manifest_complete _
      (record {
        peer_id = peer_id;
        harnesses = detect_harnesses probe url model;
        max_runtime_seconds = limit;
        accepts_tasks = accepts_tasks;
      })
      (record {
        at_peer_id = refl;
        at_harnesses = refl;
        at_max_runtime_seconds = refl;
        at_accepts_tasks = refl;
        peer_id_nonempty = h;
        versions_texts = all_texts-detect_harnesses probe url model;
        max_runtime_positive = p;
      })

-- ===== src/Manifest/Tests.antt =====
-- Runs of the manifest validation.
use agent_torrent.Prelude.{
  String, ◌≡◌, refl, arith, pos, ◌⊎◌, none, some, true, text_eq, if◌then◌else◌,
}
use agent_torrent.Py.{
  Value, object, text, int, null, boolean, Fields, field, end, ok, err, manifest_error,
}
use agent_torrent.Manifest.{
  Probe, not_found, exited, detect_harnesses, build_manifest, validate_manifest,
}
use agent_torrent.Manifest.Validate.{Manifest, Describes, IsManifest, validate_manifest_decides}

abbrev harnesses : Fields
harnesses = field "claude" (text "1.0") end

abbrev fields : Fields
fields = field "peer_id" (text "p") (
    field "harnesses" (object harnesses)
      (field "max_runtime_seconds" (int (pos 300)) (field "accepts_tasks" (boolean true) end)))

abbrev manifest : Manifest
manifest = record {
  peer_id = "p";
  harnesses = harnesses;
  max_runtime_seconds = 300;
  accepts_tasks = true;
}

abbrev probe : String → Probe
probe name =
    if text_eq name "claude" then exited (pos 0) "1.0 (Claude Code)\nmore" "" else not_found

detected : detect_harnesses probe none none ≡ field "claude" (text "1.0 (Claude Code)") end
unfolding detect_harnesses agent_torrent.Prelude.is_blank agent_torrent.Prelude.first_line
    agent_torrent.Prelude.strip
detected = refl

accepted : validate_manifest (object fields) ≡ ok (object fields)
unfolding validate_manifest agent_torrent.Manifest.raise_problems
    agent_torrent.Manifest.manifest_problems agent_torrent.Checks.problem_unless
    agent_torrent.Manifest.is_nonempty_text agent_torrent.Py.lookup_or_null
    agent_torrent.Manifest.is_text_mapping
accepted = refl

fields-Describes : Describes fields manifest
unfolding agent_torrent.Py.lookup_or_null agent_torrent.Py.all_texts
fields-Describes = record {
  at_peer_id = refl;
  at_harnesses = refl;
  at_max_runtime_seconds = refl;
  at_accepts_tasks = refl;
  peer_id_nonempty = refl;
  versions_texts = refl;
  max_runtime_positive = omega arith;
}

validate_manifest_decides_example :
    ((validate_manifest (object fields) ≡ ok (object fields)) × IsManifest (object fields))
    ⊎ ((s : String) × (validate_manifest (object fields) ≡ err (manifest_error s))
        × ¬ IsManifest (object fields))
validate_manifest_decides_example = validate_manifest_decides (object fields)

-- ===== src/ApiHarness/Tests.antt =====
-- Runs of the script on an answer with a text, and on one without.
use agent_torrent.Prelude.{String, ◌≡◌, refl, none, some, pos, Option}
use agent_torrent.Py.{Value, object, array, text, nil, cons, field, end, ok}
use agent_torrent.Peer.Samples.{py}
use agent_torrent.ApiHarness.{Request, Fetched, answered, Exit, Setting, main}
use agent_torrent.ApiHarness.Answers.{Answers}
use agent_torrent.ApiHarness.Exits.{request_of, main-IsAnswered}

abbrev local_server : Setting
local_server = record {
  base_url = some "http://127.0.0.1:8080/";
  api_key = none;
  model = none;
  max_tokens = pos 64;
  prompt = "reverse a string";
}

abbrev answer_of : String → Value
answer_of s = object (
    field "choices"
      (array (cons (object (field "message" (object (field "content" (text s) end)) end)) nil)) end)

abbrev replies : String → Request → Fetched
replies s request = answered (answer_of s)

abbrev printed : Exit
printed = record { code = 0; out = some (text "s[::-1]"); errors = none }

prints_answer : main py (replies "s[::-1]") local_server ≡ ok printed
unfolding main agent_torrent.ApiHarness.extract_text agent_torrent.Py.get agent_torrent.Py.truthy
    agent_torrent.Prelude.is_blank
prints_answer = refl

blank_fails :
    main py (replies "  ") local_server
    ≡ ok (record {
      code = 1;
      out = none;
      errors = some "api harness: no text in response (finish_reason=other)";
    })
unfolding main agent_torrent.ApiHarness.extract_text agent_torrent.Py.get agent_torrent.Py.truthy
    agent_torrent.Prelude.is_blank agent_torrent.Py.repr_value
blank_fails = refl

main-IsAnswered_example :
    (url : String) × (payload : Value) × (s : String) × (local_server.base_url ≡ some url)
    × (replies "s[::-1]" (request_of py (replies "s[::-1]") local_server url) ≡ answered payload)
    × (printed.out ≡ some (text s))
    × Answers payload s
main-IsAnswered_example =
    main-IsAnswered py (replies "s[::-1]") local_server printed prints_answer refl

-- ===== src/Cli.antt =====
-- agenttorrent/cli.py: the commands that ask the running peer, and what they print. The parser's values
-- are arguments.
pub mod Request
pub mod Show
pub mod Talk
pub mod Wire
pub mod Parser
pub mod Mesh
pub mod Typed
pub mod Start
pub mod Runs
pub mod Printed
mod Tests
mod Namespaces
use Prim.Native.String.{count}
use agent_torrent.Prelude.{
  ℕ, zero, suc, ◌-◌, String, Bool, true, false, List, [], ◌∷◌, ◌++◌, ◌<>◌, if◌then◌else◌, Option,
  none, some, take_text, join, ℤ, text_eq, str_int,
}
use agent_torrent.Py.{
  Value, Items, Fields, object, array, text, int, boolean, float, null, nil, cons, field, end,
  Error, Result, ok, err, type_error, index, get?, is_text_eq, truthy, PyTexts, str_value,
}
use agent_torrent.Py.Exec.{Exec, pure, raise, lift, modify, ◌>>=◌, ◌>>◌, continue}
use agent_torrent.Cli.Request.{Reply, granted, denied, not_running, escaped}

-- One call of `print`: a text, a text to the error stream, or `json.dumps(v, indent=2)`.
pub data Line : Type 0 where
  said : String → Line
  complained : String → Line
  dumped : Value → Line

-- What a command prints, and its exit code or the exception that ends it.
abbrev pub Output : Type 0
Output = Exec (List Line) ℕ

abbrev pub print_line : Line → Exec (List Line) (Unit {0})
print_line l = modify λ lines. lines ++ l ∷ []

unfoldable pub spaces : ℕ → String
spaces zero = ""
spaces (suc n) = " " <> spaces n

-- `f"{s:<n}"`
unfoldable pub pad : ℕ → String → String
unfolding spaces
pad n s = s <> spaces (n - count s)

-- `v[:n]` of a text; nothing else that the peer sends there can be cut.
unfoldable pub cut : ℕ → Value → Result String
cut n (text s) = ok (take_text n s)
cut n _ = err type_error

-- `for v in …`
unfoldable pub items_of : Value → Result Items
items_of (array items) = ok items
items_of _ = err type_error

-- The arguments of "delegate".
abbrev pub delegate_fields : Value → Value → Value → Value → Value → Fields
delegate_fields task required max_tokens max_runtime expected = field "task_text" task (
    field "required_harness" required (
      field "max_tokens" max_tokens
        (field "max_runtime_seconds" max_runtime (field "expected_output" expected end))))

module _ (py : PyTexts) (data_dir : String) where
  -- The branch that ends with an exit by a text, and the others.
  unfoldable pub on_control_reply : Reply → (Value → Output) → Result ℕ × List Line
  on_control_reply (granted v) go = go v []
  on_control_reply (denied error) go =
      (ok 1, complained ("peer refused control command: " <> str_value py error) ∷ [])
  on_control_reply not_running go = (
    ok 1,
    complained (
          "no running peer found for "
          <> (data_dir <> (" (start one with: mesh start --data-dir " <> (data_dir <> ")"))))
        ∷ [],
  )
  on_control_reply (escaped e) go = (err e, [])

  -- `0 if result["status"] == "ok" else 2`
  unfoldable pub exit_code : Value → Output
  exit_code result = do
    status ← lift (index "status" result)
    pure (if is_text_eq "ok" status then 0 else 2)

  unfoldable pub print_completed : Value → Exec (List Line) (Unit {0})
  unfolding cut
  print_completed result = do
    job_id ← lift (index "job_id" result)
    job_text ← lift (cut 8 job_id)
    worker ← lift (index "worker" result)
    worker_text ← lift (cut 8 worker)
    harness ← lift (index "harness" result)
    seconds ← lift (index "runtime_seconds" result)
    print_line (
        said (
          "job "
          <> (job_text
              <> (" completed by "
                  <> (worker_text
                      <> (" via "
                          <> (str_value py harness
                              <> (" in " <> (str_value py seconds <> "s")))))))))
    print_line (said "--- result ---")
    output ← lift (index "output" result)
    print_line (said (str_value py output))

  unfoldable pub print_failed : Value → Value → Exec (List Line) (Unit {0})
  print_failed status result = do
    error ← lift (get? "error" result)
    print_line (complained ("delegation " <> (str_value py status <> (": " <> str_value py error))))
    was_refunded ← lift (get? "refunded" result)
    if truthy was_refunded then print_line (complained "escrowed credit was refunded") else pure tt

  unfoldable pub print_result : Bool → Value → Exec (List Line) (Unit {0})
  unfolding print_completed print_failed
  print_result true result = print_line (dumped result)
  print_result false result = do
    status ← lift (index "status" result)
    if is_text_eq "ok" status then print_completed result else print_failed status result

  -- `cmd_delegate`, after the request
  unfoldable pub cmd_delegate : Bool → Reply → Result ℕ × List Line
  unfolding on_control_reply exit_code print_result
  cmd_delegate as_json reply =
      on_control_reply reply λ result. (do print_result as_json result; exit_code result)

  -- `f"{v:<n}"`
  unfoldable pub cell : ℕ → Value → Result String
  unfolding pad
  cell n (text s) = ok (pad n s)
  cell n (int i) = ok (pad n (str_int i))
  cell n (boolean true) = ok (pad n "1")
  cell n (boolean false) = ok (pad n "0")
  cell n (float t) = ok (pad n (str_value py (float t)))
  cell n _ = err type_error

  -- `r["job_id"] or "-"`
  unfoldable pub job_or_dash : Value → Value
  job_or_dash v = if truthy v then v else text "-"

  unfoldable pub record_line : Value → Exec (List Line) String
  unfolding cell job_or_dash cut pad
  record_line r = do
    kind ← lift (index "kind" r)
    kind_text ← lift (cell 8 kind)
    job_id ← lift (index "job_id" r)
    job_text ← lift (cut 8 (job_or_dash job_id))
    memo ← lift (index "memo" r)
    pure (kind_text <> (" " <> (pad 10 job_text <> (" " <> str_value py memo))))

  unfoldable pub print_records : Items → Exec (List Line) (Unit {0})
  unfolding record_line
  print_records nil = pure tt
  print_records (cons r rest) = do
    shown ← record_line r
    print_line (said shown)
    print_records rest

  -- `cmd_ledger`, after the request
  unfoldable pub cmd_ledger : Bool → Reply → Result ℕ × List Line
  unfolding on_control_reply print_records items_of
  cmd_ledger true reply = on_control_reply reply λ result. (do print_line (dumped result); pure 0)
  cmd_ledger false reply = on_control_reply reply λ result. (do
    amount ← lift (index "balance" result)
    print_line (said ("balance: " <> (str_value py amount <> " credits")))
    print_line (said (pad 8 "KIND" <> (" " <> (pad 10 "JOB" <> " MEMO"))))
    listed ← lift (index "records" result)
    items ← lift (items_of listed)
    print_records items
    pure 0)

-- ===== src/Cli/Show.antt =====
-- `cmd_peers` of the command line.
use agent_torrent.Prelude.{
  ℕ, String, Bool, true, false, List, [], ◌∷◌, ◌<>◌, if◌then◌else◌, take_text, join, text_eq,
}
use agent_torrent.Py.{
  Value, Items, Fields, object, text, nil, cons, field, end, Result, ok, err, attribute_error,
  type_error, index, truthy, PyTexts, str_value,
}
use agent_torrent.Py.Exec.{Exec, pure, lift, ◌>>=◌, ◌>>◌}
use agent_torrent.Cli.Request.{Reply}
use agent_torrent.Cli.{Line, said, dumped, Output, print_line, pad, cut, items_of, on_control_reply}

-- `d.items()`, which only a dictionary has
unfoldable pub dict_fields : Value → Result Fields
dict_fields (object d) = ok d
dict_fields _ = err attribute_error

-- `v + …`, which only a text takes
unfoldable pub text_of : Value → Result String
text_of (text s) = ok s
text_of _ = err type_error

-- `whole` is what `f"{v:.0f}"` gives.
module _ (py : PyTexts) (data_dir : String) (whole : Value → Result String) where
  unfoldable pub harness_texts : Fields → List String
  harness_texts end = []
  harness_texts (field k v rest) = (k <> (" (" <> (str_value py v <> ")"))) ∷ harness_texts rest

  -- `", ".join(…) or "none (simulated)"`
  unfoldable pub harness_list : Fields → String
  unfolding harness_texts
  harness_list harnesses =
      let joined = join ", " (harness_texts harnesses) in
      if text_eq joined "" then "none (simulated)" else joined

  unfoldable pub peer_line : Value → Exec (List Line) String
  unfolding dict_fields text_of harness_list
  peer_line p = do
    manifest ← lift (index "manifest" p)
    named ← lift (index "harnesses" manifest)
    harnesses ← lift (dict_fields named)
    peer_id ← lift (index "peer_id" p)
    short_id ← lift (cut 12 peer_id)
    at_host ← lift (index "host" p)
    host ← lift (text_of at_host)
    port ← lift (index "tcp_port" p)
    accepts ← lift (index "accepts_tasks" manifest)
    last_seen ← lift (index "last_seen" p)
    seen ← lift (whole last_seen)
    pure (
        pad 16 (short_id <> "…")
        <> (" "
            <> (pad 22 (host <> (":" <> str_value py port))
                <> (" "
                    <> (pad 30 (take_text 29 (harness_list harnesses))
                        <> (" " <> (pad 8 (str_value py accepts) <> (" " <> seen))))))))

  unfoldable pub print_peers : Items → Exec (List Line) (Unit {0})
  unfolding peer_line
  print_peers nil = pure tt
  print_peers (cons p rest) = do shown ← peer_line p; print_line (said shown); print_peers rest

  unfoldable pub print_table : Value → Output
  unfolding print_peers
  print_table listed = do
    print_line (
        said (
          pad 16 "PEER ID"
          <> (" "
              <> (pad 22 "ADDRESS"
                  <> (" " <> (pad 30 "HARNESSES" <> (" " <> (pad 8 "ACCEPTS" <> " LAST SEEN"))))))))
    items ← lift (items_of listed)
    print_peers items
    pure 0

  -- `cmd_peers`, after the request
  unfoldable pub cmd_peers : Bool → Reply → Result ℕ × List Line
  unfolding print_table on_control_reply
  cmd_peers true reply =
      on_control_reply py data_dir reply λ listed. (do print_line (dumped listed); pure 0)
  cmd_peers false reply = on_control_reply py data_dir reply λ listed.
      (if truthy listed
        then print_table listed
        else (do print_line (said "no live peers in the swarm"); pure 0))

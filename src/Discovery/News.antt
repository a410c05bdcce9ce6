-- ===== src/Discovery/News.antt =====
-- What the checks of `_handle_beacon` establish of a beacon that they accept.
use mathlib.Core.Path.{subst}
use mathlib.Core.Option.{some-injective}
use agent_torrent.Prelude.{
  String, ◌≡◌, refl, ap, sym, ◌∙◌, Bool, true, false, if◌then◌else◌, Option, none, some, text_eq,
  eq_iff, arith,
}
use agent_torrent.Py.{
  Value, object, text, Result, ok, err, attribute_error, index, get, get?, is_dict, is_text_eq, end,
  >>=-eq-ok, ok-injective,
}
use agent_torrent.Identity.{Crypto}
use agent_torrent.Manifest.{validate_manifest}
use agent_torrent.Manifest.Validate.{validate_manifest_sound}
use agent_torrent.Discovery.Beacon.{
  Datagram, is_port, open_datagram, check_manifest, check_body, check_beacon, accept_beacon,
}

-- What the checks of a beacon establish of its news: it comes from another peer, with a port and a
-- valid manifest that names the sender.
pub record IsNews (own_id : String) (sender : String) (tcp_port manifest : Value) : Type 0 where
  pub other : text_eq sender own_id ≡ false
  pub port : is_port tcp_port ≡ true
  pub valid : validate_manifest manifest ≡ ok manifest
  pub named : index "peer_id" manifest ≡ ok (text sender)

text_of_eq : (s : String) (v : Value) → is_text_eq s v ≡ true → v ≡ text s
text_of_eq s (text t) h = ap text ((eq_iff t s).0 h)
text_of_eq s _ h = cc

-- `d.get` returns what `d[key]` returns.
pub get_of_index : (k : String) (default v b : Value) → index k v ≡ ok b → get k default v ≡ ok b
unfolding index get
get_of_index k default (object d) b h = ground arith
get_of_index k default _ b h = absurd (cc)

pub get?-no_dict : (k : String) (b : Value) → is_dict b ≡ false → get? k b ≡ err attribute_error
unfolding get
get?-no_dict k (object d) h = absurd (cc)
get?-no_dict k _ h = refl

-- A guard that drops the datagram has let it through.
pub passed_unless :
    {A : Type 0} (b : Bool) (r : Result (Option A)) {a : A}
    → (if b then ok none else r) ≡ ok (some a)
    → (b ≡ false) × (r ≡ ok (some a))
passed_unless true r h = absurd (cc)
passed_unless false r h = (refl, h)

pub passed_if :
    {A : Type 0} (b : Bool) (r : Result (Option A)) {a : A}
    → (if b then r else ok none) ≡ ok (some a)
    → (b ≡ true) × (r ≡ ok (some a))
passed_if true r h = (refl, h)
passed_if false r h = absurd (cc)

-- The news of a manifest that names its sender.
pub named_news :
    (b : Bool) (sender : String) (port m : Value) (s : String) (port' manifest : Value)
    → ok (if◌then◌else◌ {A = Option (String × Value × Value)} b (some (sender, port, m)) none)
      ≡ ok (some (s, port', manifest))
    → (b ≡ true) × (s ≡ sender) × (port' ≡ port) × (manifest ≡ m)
named_news true sender port m s port' manifest h =
    let e = some-injective _ _ (ok-injective h) in
    (
      refl,
      ap (λ (t : String × Value × Value). t.0) (sym e),
      ap (λ (t : String × Value × Value). t.1) (sym e),
      ap (λ (t : String × Value × Value). t.2) (sym e),
    )
named_news false sender port m s port' manifest h = absurd (cc)

manifest_sound :
    (sender : String) (port v : Value) (r : Result Value) (s : String) (port' manifest : Value)
    → validate_manifest v ≡ r
    → check_manifest sender port r ≡ ok (some (s, port', manifest))
    → (s ≡ sender)
      × (port' ≡ port)
      × (validate_manifest manifest ≡ ok manifest)
      × (index "peer_id" manifest ≡ ok (text s))
unfolding check_manifest
manifest_sound sender port v (err e) s port' manifest q h = absurd (cc)
manifest_sound sender port v (ok m) s port' manifest q h =
    let id = >>=-eq-ok (index "peer_id" m) _ h in
    let n = named_news (is_text_eq sender id.0) sender port m s port' manifest id.2 in
    let valid = subst (λ x. validate_manifest x ≡ ok m) (sym (validate_manifest_sound v m q).0) q in
    (
      n.1,
      n.2,
      subst (λ x. validate_manifest x ≡ ok x) (sym n.3) valid,
      ap (index "peer_id") n.3
          ∙ id.1
          ∙ ap ok (text_of_eq sender id.0 n.0)
          ∙ ap (λ x. ok (text x)) (sym n.1),
    )

pub body_sound :
    (sender : String) (payload : Value) (s : String) (port manifest : Value)
    → check_body sender payload ≡ ok (some (s, port, manifest))
    → (s ≡ sender)
      × (is_port port ≡ true)
      × (validate_manifest manifest ≡ ok manifest)
      × (index "peer_id" manifest ≡ ok (text s))
unfolding check_body
body_sound sender payload s port manifest h =
    let body = >>=-eq-ok (get "body" (object end) payload) _ h in
    let tcp_port = >>=-eq-ok (get? "tcp_port" body.0) _ body.2 in
    let guard = passed_if (is_port tcp_port.0) _ tcp_port.2 in
    let v = >>=-eq-ok (get? "manifest" body.0) _ guard.1 in
    let m = manifest_sound sender tcp_port.0 v.0 _ s port manifest refl v.2 in
    (m.0, ap is_port m.1 ∙ guard.0, m.2, m.3)

pub beacon_sound :
    (own_id : String) (message : Option (String × Value)) (s : String) (port manifest : Value)
    → check_beacon own_id message ≡ ok (some (s, port, manifest))
    → IsNews own_id s port manifest
unfolding check_beacon
beacon_sound own_id none s port manifest h = cc
beacon_sound own_id (some (sender, payload)) s port manifest h =
    let other = passed_unless (text_eq sender own_id) _ h in
    let type = >>=-eq-ok (index "type" payload) _ other.1 in
    let guard = passed_if (is_text_eq "BEACON" type.0) _ type.2 in
    let b = body_sound sender payload s port manifest guard.1 in
    record {
      other = ap (λ x. text_eq x own_id) b.0 ∙ other.0;
      port = b.1;
      valid = b.2;
      named = b.3;
    }

pub accept_beacon_sound :
    (c : Crypto) (own_id : String) (d : Datagram) (s : String) (port manifest : Value)
    → accept_beacon c own_id d ≡ ok (some (s, port, manifest))
    → IsNews own_id s port manifest
unfolding accept_beacon
accept_beacon_sound c own_id d s port manifest h =
    let message = >>=-eq-ok (open_datagram c d) _ h in
    beacon_sound own_id message.0 s port manifest message.2

-- ===== src/Share/Adb/Numbered.antt =====
-- share/adb.rs: a device that is selected by its transport id.
use dial_f.Prelude.{◌≡◌, refl, ap, ◌∙◌, ◌++◌, some, arith}
use dial_f.Prelude.Text.{Text, bytes, strip_prefix, strip_prefix_iff, text_eq, starts_with}
use dial_f.Share.Adb.{
  Targets, forward, trim_nul, blocked, is_list, is_track, is_unqualified, named_serial,
  is_server_scoped, decide_bare, decide_trimmed, decide, upstream_request, sent,
}
use dial_f.Share.Adb.Serials.{strip_prefix-trim_nul}

abbrev pub transport_id : Text
transport_id = bytes "host:transport-id:"

prefix_of_self : (id : Text) → strip_prefix transport_id (transport_id ++ id) ≡ some id
unfolding bytes strip_prefix
prefix_of_self id = refl

trim_nul-transport_id : (id : Text) → trim_nul (transport_id ++ id) ≡ transport_id ++ trim_nul id
trim_nul-transport_id id =
    (strip_prefix_iff transport_id _ _).0
      (strip_prefix-trim_nul transport_id _ id (unfold bytes in omega arith) (prefix_of_self id))

decide_trimmed-transport_id :
    (x : Text) (t : Targets) → decide_trimmed (transport_id ++ x) t ≡ forward
unfolding decide_trimmed blocked is_list is_track is_unqualified named_serial is_server_scoped
    decide_bare bytes strip_prefix text_eq starts_with
decide_trimmed-transport_id x t = refl

-- A request that selects a device by its transport id is forwarded unchanged, whatever the id
-- is and whichever devices are shared.
pub upstream_request-transport_id :
    (id : Text) (t : Targets) → upstream_request (transport_id ++ id) t ≡ some (transport_id ++ id)
unfolding upstream_request decide
upstream_request-transport_id id t = ap (sent (transport_id ++ id)) (
    ap (λ r. decide_trimmed r t) (trim_nul-transport_id id)
    ∙ decide_trimmed-transport_id (trim_nul id) t)

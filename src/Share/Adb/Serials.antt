-- ===== src/Share/Adb/Serials.antt =====
-- share/adb.rs: how prefixes, NUL bytes and serials of a request relate.
use dial_f.Prelude.{
  ◌≡◌, refl, ◌≢◌, ◌⊎◌, inl, inr, Bool, true, ◌||◌, ◌&&◌, none, some, List, [], ◌∷◌, ◌++◌, exists,
  find, ◌==◌, Bool-cases, Option-cases, All, arith, is_empty,
}
use dial_f.Prelude.Text.{
  Text, bytes, text_eq, text_eq_refl, text_eq_iff, strip_prefix, strip_prefix_iff, starts_with,
}
use dial_f.Share.Adb.{
  Targets, all, only, allows, only_one, trim_nul, is_list, is_track, named_serial, matching_serial,
  addresses,
}

-- A prefix with no NUL byte survives the trimming.
pub strip_prefix-trim_nul :
    (p s x : Text)
    → All (λ c. c ≢ 0) p
    → strip_prefix p s ≡ some x
    → strip_prefix p (trim_nul s) ≡ some (trim_nul x)
unfolding strip_prefix trim_nul
strip_prefix-trim_nul [] s x h e = ground arith
strip_prefix-trim_nul (c ∷ p) [] x h e = cc
strip_prefix-trim_nul (c ∷ p) (d ∷ s) x h e = ground (arith, strip_prefix-trim_nul p s x h.1)

pub starts_with-trim_nul :
    (p s : Text) → All (λ c. c ≢ 0) p → starts_with p s ≡ true → starts_with p (trim_nul s) ≡ true
unfolding starts_with
starts_with-trim_nul p s h e = elim (Option-cases (strip_prefix p s)) [
  | inl q ↦ ground arith
  | inr (x, q) ↦ rw (strip_prefix-trim_nul p s x h q)
]

pub list_unnamed :
    (x : Text)
    → (is_list x || is_track x) ≡ true
    → (named_serial x ≡ none) × (strip_prefix (bytes "host-serial:") x ≡ none)
unfolding is_list is_track
list_unnamed x h = elim (Bool-cases (text_eq (bytes "host:devices") x)) [
  | inl e ↦ at (bytes "host:devices") e (unfold named_serial bytes strip_prefix in (refl, refl))
  | inr a ↦ elim (Bool-cases (text_eq (bytes "host:devices-l") x)) [
    | inl e ↦ at (bytes "host:devices-l") e (unfold named_serial bytes strip_prefix in (refl, refl))
    | inr b ↦ elim (Bool-cases (text_eq (bytes "host:track-devices") x)) [
      | inl e ↦
          at (bytes "host:track-devices") e (unfold named_serial bytes strip_prefix in (refl, refl))
      | inr c ↦
          at (bytes "host:track-devices-l") (ground arith)
            (unfold named_serial bytes strip_prefix in (refl, refl))
    ]
  ]
]
  where
    at :
        (n : Text)
        → text_eq n x ≡ true
        → (named_serial n ≡ none) × (strip_prefix (bytes "host-serial:") n ≡ none)
        → (named_serial x ≡ none) × (strip_prefix (bytes "host-serial:") x ≡ none)
    at n e r = rw (← (text_eq_iff n x).0 e) r

pub prefixed_unnamed :
    (x r : Text) → strip_prefix (bytes "host-serial:") x ≡ some r → named_serial x ≡ none
prefixed_unnamed x r h =
    rw ((strip_prefix_iff _ x r).0 h) (unfold named_serial bytes strip_prefix in refl)

pub tport_named :
    (x s : Text) → strip_prefix (bytes "host:tport:serial:") x ≡ some s → named_serial x ≡ some s
tport_named x s h =
    rw ((strip_prefix_iff _ x s).0 h) (unfold named_serial bytes strip_prefix in refl)

pub named_serial-trim_nul :
    (q s : Text) → named_serial q ≡ some s → named_serial (trim_nul q) ≡ some (trim_nul s)
unfolding named_serial
named_serial-trim_nul q s h = elim (Option-cases (strip_prefix (bytes "host:transport:") q)) [
  | inr (x, e) ↦
      ground
        (arith, strip_prefix-trim_nul (bytes "host:transport:") q x (unfold bytes in omega arith) e)
  | inl e ↦
      let f : strip_prefix (bytes "host:tport:serial:") q ≡ some s = ground arith in
      tport_named (trim_nul q) (trim_nul s)
        (strip_prefix-trim_nul (bytes "host:tport:serial:") q s (unfold bytes in omega arith) f)
]

pub trim_nul-extends : (s : Text) → (z : Text) × (s ≡ trim_nul s ++ z)
unfolding trim_nul
trim_nul-extends [] = ([], refl)
trim_nul-extends (c ∷ s) = elim (Bool-cases (c == 0 && is_empty (trim_nul s))) [
  | inl e ↦ (c ∷ s, ground arith)
  | inr e ↦ ((trim_nul-extends s).0, ground (arith, (trim_nul-extends s).1))
]

pub find_exists :
    (p : Text → Bool) (list : List Text) {s : Text}
    → find p list ≡ some s
    → (p s ≡ true) × (exists (λ x. text_eq x s) list ≡ true)
find_exists p [] h = cc
find_exists p (x ∷ list) {s} h = ground (arith, find_exists p list {s = s}, text_eq_refl s)

pub addresses_prefix :
    (rest s : Text) → addresses rest s ≡ true → (cmd : Text) × (rest ≡ s ++ (bytes ":" ++ cmd))
unfolding addresses starts_with
addresses_prefix rest s h = elim (Option-cases (strip_prefix s rest)) [
  | inl e ↦ absurd (ground arith)
  | inr (r, e) ↦ elim (Option-cases (strip_prefix (bytes ":") r)) [
    | inl f ↦ absurd (ground arith)
    | inr (cmd, f) ↦
        (cmd, cc ((strip_prefix_iff s rest r).0 e, (strip_prefix_iff (bytes ":") r cmd).0 f))
  ]
]

pub matching_serial-prefix :
    (rest : Text) (list : List Text) {s : Text}
    → matching_serial rest (only list) ≡ some s
    → (allows (only list) s ≡ true) × (cmd : Text) × (rest ≡ s ++ (bytes ":" ++ cmd))
unfolding matching_serial allows
matching_serial-prefix rest list {s} h =
    let (a, b) = find_exists (addresses rest) list h in
    let (cmd, e) = addresses_prefix rest s a in (b, cmd, e)

pub only_one-allows : (t : Targets) {s : Text} → only_one t ≡ some s → allows t s ≡ true
unfolding only_one allows
only_one-allows all h = cc
only_one-allows (only []) h = cc
only_one-allows (only (x ∷ [])) {s} h = ground (arith, text_eq_refl s)
only_one-allows (only (x ∷ y ∷ r)) h = cc

pub named_tport : (x : Text) → named_serial (bytes "host:tport:serial:" ++ x) ≡ some x
unfolding named_serial bytes strip_prefix
named_tport x = refl

pub named_transport : (x : Text) → named_serial (bytes "host:transport:" ++ x) ≡ some x
unfolding named_serial bytes strip_prefix
named_transport x = refl

pub named_host_serial : (x : Text) → named_serial (bytes "host-serial:" ++ x) ≡ none
unfolding named_serial bytes strip_prefix
named_host_serial x = refl

pub host_serial_tport :
    (x : Text) → strip_prefix (bytes "host-serial:") (bytes "host:tport:serial:" ++ x) ≡ none
unfolding bytes strip_prefix
host_serial_tport x = refl

pub host_serial_transport :
    (x : Text) → strip_prefix (bytes "host-serial:") (bytes "host:transport:" ++ x) ≡ none
unfolding bytes strip_prefix
host_serial_transport x = refl

pub host_serial_bytes : All (λ c. c ≢ 0) (bytes "host-serial:")
unfolding bytes
host_serial_bytes = omega arith

pub allowed_either :
    (t : Targets) (s x : Text)
    → allows t x ≡ true
    → (s ≡ x) ⊎ (trim_nul s ≡ x)
    → (allows t s || allows t (trim_nul s)) ≡ true
allowed_either t s x a e = ground arith

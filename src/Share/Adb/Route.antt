-- ===== src/Share/Adb/Route.antt =====
-- share/adb.rs: the ways in which a request comes to be sent to the adb server.
use dial_f.Prelude.{
  ◌≡◌, refl, ap, ◌∙◌, ◌⊎◌, inl, inr, true, ◌||◌, none, some, ◌++◌, Bool-cases, Option-cases, arith,
}
use dial_f.Prelude.Text.{Text, bytes, strip_prefix, starts_with}
use dial_f.Share.Adb.{
  Targets, all, only, allows, only_one, trim_nul, blocked, is_list, is_track, is_unqualified,
  named_serial, matching_serial, is_server_scoped, decide_unqualified, decide_bare,
  decide_addressed, decide, upstream_request, sent,
}

-- How a request comes to be sent to the adb server.
pub data Route (request : Text) (t : Targets) (q : Text) : Type 0 where
  listed :
      q ≡ request
      → (is_list (trim_nul request) || is_track (trim_nul request)) ≡ true
      → Route request t q
  addressed :
      q ≡ request
      → (s : Text) → named_serial (trim_nul request) ≡ some s
      → allows t s ≡ true
      → Route request t q
  prefixed :
      q ≡ request
      → named_serial (trim_nul request) ≡ none
      → (rest s : Text) → strip_prefix (bytes "host-serial:") (trim_nul request) ≡ some rest
      → matching_serial rest t ≡ some s
      → Route request t q
  plain :
      q ≡ request
      → named_serial (trim_nul request) ≡ none
      → strip_prefix (bytes "host-serial:") (trim_nul request) ≡ none
      → Route request t q
  selected :
      (serial : Text)
      → only_one t ≡ some serial
      → (q ≡ bytes "host:tport:serial:" ++ serial) ⊎ (q ≡ bytes "host:transport:" ++ serial)
      → Route request t q
  scoped :
      (serial rest : Text)
      → only_one t ≡ some serial
      → q ≡ bytes "host-serial:" ++ (serial ++ (bytes ":" ++ rest))
      → Route request t q

module _ (request : Text) (t : Targets) (q : Text) where
  abbrev req : Text
  req = trim_nul request

  module _ (unnamed : named_serial req ≡ none)
      (unprefixed : strip_prefix (bytes "host-serial:") req ≡ none) where
    Route-decide_bare : sent request (decide_bare req t) ≡ some q → Route request t q
    unfolding decide_bare sent
    Route-decide_bare h = elim (Option-cases (strip_prefix (bytes "host:") req)) [
      | inl e ↦ plain (ground arith) unnamed unprefixed
      | inr (rest, e) ↦ elim (Bool-cases (is_server_scoped rest)) [
        | inl b ↦ plain (ground arith) unnamed unprefixed
        | inr b ↦ elim (Option-cases (only_one t)) [
          | inl o ↦ plain (ground arith) unnamed unprefixed
          | inr (serial, o) ↦ scoped serial rest o (ground arith)
        ]
      ]
    ]

    Route-decide_unqualified :
        (u : Targets) → t ≡ u → sent request (decide_unqualified req u) ≡ some q → Route request t q
    unfolding decide_unqualified sent
    Route-decide_unqualified all e h = plain (ground arith) unnamed unprefixed
    Route-decide_unqualified (only list) e h = elim (Option-cases (only_one (only list))) [
      | inl o ↦ absurd (ground arith)
      | inr (serial, o) ↦
          selected serial (ap only_one e ∙ o)
            (elim (Bool-cases (starts_with (bytes "host:tport:") req)) [
              | inl b ↦ inl (ground arith)
              | inr b ↦ inr (ground arith)
            ])
    ]

  Route-decide_addressed : sent request (decide_addressed req t) ≡ some q → Route request t q
  unfolding decide_addressed sent
  Route-decide_addressed h = elim (Option-cases (named_serial req)) [
    | inr (s, e) ↦ elim (Bool-cases (allows t s)) [
      | inl b ↦ addressed (ground arith) s e b
      | inr b ↦ absurd (ground arith)
    ]
    | inl e ↦ elim (Option-cases (strip_prefix (bytes "host-serial:") req)) [
      | inr (rest, p) ↦ elim (Option-cases (matching_serial rest t)) [
        | inl m ↦ absurd (ground arith)
        | inr (s, m) ↦ prefixed (ground arith) e rest s p m
      ]
      | inl p ↦ elim (Bool-cases (is_unqualified req)) [
        | inl b ↦ Route-decide_unqualified e p t refl (ground arith)
        | inr b ↦ Route-decide_bare e p (ground arith)
      ]
    ]
  ]

  pub Route-upstream_request : upstream_request request t ≡ some q → Route request t q
  unfolding upstream_request decide sent
  Route-upstream_request h = elim (Option-cases (blocked req)) [
    | inr (reason, e) ↦ absurd (ground arith)
    | inl e ↦ elim (Bool-cases (is_list req)) [
      | inl b ↦ listed (ground arith) (ground arith)
      | inr b ↦ elim (Bool-cases (is_track req)) [
        | inl c ↦ listed (ground arith) (ground arith)
        | inr c ↦ Route-decide_addressed (ground arith)
      ]
    ]
  ]

  pub not_blocked : upstream_request request t ≡ some q → blocked req ≡ none
  unfolding upstream_request decide sent
  not_blocked h = ground arith

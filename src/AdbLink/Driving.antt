-- ===== src/AdbLink/Driving.antt =====
-- adb_link.rs: what a check reports, and when it runs `adb connect`.
use dial_f.Prelude.{
  ◌≡◌, refl, ap, Bool, true, false, Option, none, some, List, [], ◌∷◌, inl, inr, ◌⊎◌,
}
use dial_f.Prelude.Outcome.{Result, ok}
use dial_f.Prelude.Text.{Text, bytes, text_eq_refl}
use dial_f.AdbLink.{connecting, AdbStatus, new_status, connected_status}
use dial_f.AdbLink.Checks.{
  AdbHost, AdbConfig, host_state, connect_endpoint, drive, may_try, listed_as,
}

module _ {S : Type 0} (host : AdbHost S) (connect : Text → Text → S → Result Text Text × S)
    (disconnect : Text → Text → S → S) (set_status : AdbStatus → S → S) where
  -- A host with the same device list.
  abbrev other : AdbHost S
  other = record host { connect = connect; disconnect = disconnect; set_status = set_status }

  connect_endpoint-off :
      (cfg : AdbConfig) (ep : Text) (previous : Option Text) (s : S)
      → cfg.autoconnect ≡ false
      → connect_endpoint other cfg ep previous s ≡ connect_endpoint host cfg ep previous s
  unfolding connect_endpoint
  connect_endpoint-off cfg ep previous s c = rw c refl

  may_try-off :
      (cfg : AdbConfig) (ep : Text) (previous : Option Text) (may : Bool) (s : S)
      → cfg.autoconnect ≡ false
      → may_try other cfg ep previous may s ≡ may_try host cfg ep previous may s
  unfolding may_try
  may_try-off cfg ep previous false s c = refl
  may_try-off cfg ep previous true s c =
      ap (λ r. (some r.0, r.1)) (connect_endpoint-off cfg ep previous s c)

  -- What a check reports does not depend on `adb connect` and `adb disconnect`, which it does not
  -- run, when connecting is off, when it must wait for the delay to pass, and when the list has the
  -- phone, ready for use.
  pub drive-other :
      (cfg : AdbConfig) (ep : Text) (serials : List Text) (previous : Option Text) (may : Bool)
      (s : S)
      → (cfg.autoconnect ≡ false)
        ⊎ (may ≡ false)
        ⊎ ((serial : Text) × ((host_state host serials s).0 ≡ some (serial, bytes "device")))
      → drive other cfg ep serials previous may s ≡ drive host cfg ep serials previous may s
  unfolding drive host_state listed_as may_try
  drive-other cfg ep serials previous may s (inl c) =
      let (found, s') = host_state host serials s in
      ap (listed_as host ep found s') (may_try-off cfg ep previous may s' c)
  drive-other cfg ep serials previous may s (inr (inl m)) = rw m refl
  drive-other cfg ep serials previous may s (inr (inr (serial, e))) =
      rw (e, text_eq_refl (bytes "device")) refl

module _ {S : Type 0} (host : AdbHost S) (ep : Text) where
  -- The device list that the host gives at `u` has the phone, ready for use, under one of the names,
  -- and the status says so.
  abbrev pub Listed : List Text → S → AdbStatus → Type 0
  Listed names u st =
      (serial : Text) × ((host_state host names u).0 ≡ some (serial, bytes "device"))
      × (st ≡ connected_status ep serial)

  -- The host at `u` once the endpoint that the new one replaces is disconnected and the status tells of
  -- the attempt to connect.
  abbrev pub about_to_connect : Text → Option Text → S → S
  about_to_connect adb previous u =
      host.set_status (new_status (some ep) connecting none)
        (elim previous [ none ↦ u | some old ↦ host.disconnect adb old u ])

  -- `adb connect` to the endpoint was allowed and ran from there, and the list that the host gave right
  -- after it has the endpoint.
  abbrev pub ListedAfterConnect : AdbConfig → Option Text → S → AdbStatus → Type 0
  ListedAfterConnect cfg previous u st =
      (adb : Text) × (v : S) × (out : Text) × (v ≡ about_to_connect adb previous u)
      × (cfg.autoconnect ≡ true)
      × (cfg.adb ≡ some adb)
      × ((host.connect adb ep v).0 ≡ ok out)
      × Listed (ep ∷ []) (host.connect adb ep v).1 st

-- ===== src/AdbLink/Checks.antt =====
-- adb_link.rs: the check that a heartbeat starts, over what the host offers.
use dial_f.Prelude.{
  Bool, true, false, ◌&&◌, Option, none, some, List, [], ◌∷◌, ◌++◌, if◌then◌else◌, ltb, exists,
  find, keep,
}
use dial_f.Prelude.Outcome.{Result, ok, err}
use dial_f.Prelude.Text.{Text, bytes, text_eq, trim}
use dial_f.Share.Adb.Devices.{Device}
use dial_f.AdbLink.{
  AdbState, AdbStatus, adb_not_found, available, classify_connect, connected, connected_status,
  connecting, failing, needs_pairing, new_status, pairing_hint, serials,
}

unfoldable pub ends_in_slash : Text → Bool
ends_in_slash [] = true
ends_in_slash (c ∷ []) = ltb c 48 && ltb 46 c
ends_in_slash (c ∷ b ∷ s) = ends_in_slash (b ∷ s)

-- Path::join, for a path and one to put behind it.
unfoldable pub join_path : Text → Text → Text
join_path base [] = if ends_in_slash base then base else base ++ bytes "/"
join_path base (c ∷ rest) =
    if ltb c 48 && ltb 46 c
    then c ∷ rest
    else (if ends_in_slash base then base ++ (c ∷ rest) else base ++ (bytes "/" ++ (c ∷ rest)))

unfoldable pub resolve_adb :
    Option Text → Option Text → Option Text → Bool → (Text → Bool) → Option Text
unfolding join_path
resolve_adb (some p) on_path home macos is_there = if is_there p then some p else none
resolve_adb none (some p) home macos is_there = some p
resolve_adb none none none macos is_there = none
resolve_adb none none (some home) macos is_there =
    let sdk = if macos then bytes "Library/Android/sdk" else bytes "Android/Sdk" in
    let default = join_path (join_path home sdk) (bytes "platform-tools/adb") in
    if is_there default then some default else none

-- What a check does outside: the device list of the host's adb server (none when it does not come in
-- time), `adb disconnect`, `adb connect`, and the state that is shown meanwhile.
pub record AdbHost (S : Type 0) : Type 0 where
  pub list_devices : S → Option (List Device) × S
  pub disconnect : (adb : Text) → Text → S → S
  pub connect : (adb : Text) → Text → S → Result Text Text × S
  pub set_status : AdbStatus → S → S

-- The first device listed under one of the serials, one that is ready preferred.
unfoldable pub pick : List Text → List Device → Option (Text × Text)
unfolding text_eq
pick serials devices =
    let listed = keep (λ d. exists (λ s. text_eq s d.serial) serials) devices in
    elim (find (λ d. text_eq d.state (bytes "device")) listed) [
      | some d ↦ some (d.serial, d.state)
      | none ↦ elim listed [ [] ↦ none | d ∷ ds ↦ some (d.serial, d.state) ]
    ]

abbrev pub is_connected : AdbState → Bool
is_connected s = elim s [ connected ↦ true | _ ↦ false ]

-- What the configuration says of connecting, with the adb that `resolve_adb` finds.
pub record AdbConfig : Type 0 where
  pub autoconnect : Bool
  pub adb : Option Text
  pub macos : Bool

module _ {S : Type 0} (host : AdbHost S) where
  unfoldable pub host_state : List Text → S → Option (Text × Text) × S
  unfolding pick
  host_state serials s =
      let (devices, s') = host.list_devices s in
      (elim devices [ none ↦ none | some ds ↦ pick serials ds ], s')

  -- After `adb connect`: the phone counts as connected when the device list has it.
  unfoldable pub confirmed : Text → Text → Option (Text × Text) → AdbStatus
  unfolding text_eq trim
  confirmed ep output found =
      let missing = new_status (some ep) failing (
        some (
          bytes "adb reported `"
          ++ (trim output ++ bytes "` but the phone is not in its device list"))) in
      elim found [
        | none ↦ missing
        | some (serial, st) ↦
            if text_eq st (bytes "device") then connected_status ep serial else missing
      ]

  unfoldable pub confirm : Text → Text → S → AdbStatus × S
  unfolding host_state confirmed
  confirm ep output s = let (found, s') = host_state (ep ∷ []) s in (confirmed ep output found, s')

  -- What follows the output of `adb connect`.
  unfoldable pub judge : AdbConfig → Text → Result Text Text → S → AdbStatus × S
  unfolding classify_connect confirm
  judge cfg ep (err e) s = (new_status (some ep) failing (some e), s)
  judge cfg ep (ok output) s =
      let (st, detail) = classify_connect output cfg.macos in
      if is_connected st then confirm ep output s else (new_status (some ep) st detail, s)

  unfoldable pub connect_endpoint : AdbConfig → Text → Option Text → S → AdbStatus × S
  unfolding judge
  connect_endpoint cfg ep previous s =
      if cfg.autoconnect
      then elim cfg.adb [
        | none ↦ (
          new_status (some ep) adb_not_found (
              some (
                bytes
                  "adb not found on the service PATH or in the default SDK location — set adb_share.adb in config.yaml")),
          s,
        )
        | some adb ↦
            let s1 : S = elim previous [ none ↦ s | some old ↦ host.disconnect adb old s ] in
            let s2 = host.set_status (new_status (some ep) connecting none) s1 in
            let (output, s3) = host.connect adb ep s2 in judge cfg ep output s3
      ]
      else (
        new_status (some ep) available
            (some (bytes "auto-connect is off (adb_share.autoconnect in config.yaml)")),
        s,
      )

  -- drive, when the device list does not settle the matter.
  unfoldable pub may_try : AdbConfig → Text → Option Text → Bool → S → Option AdbStatus × S
  unfolding connect_endpoint
  may_try cfg ep previous false s = (none, s)
  may_try cfg ep previous true s =
      let (st, s') = connect_endpoint cfg ep previous s in (some st, s')

  -- What the device list says, and what is done when it says nothing.
  unfoldable pub listed_as :
      Text → Option (Text × Text) → S → Option AdbStatus × S → Option AdbStatus × S
  unfolding text_eq
  listed_as ep none s go_on = go_on
  listed_as ep (some (serial, st)) s go_on =
      if text_eq st (bytes "device")
      then (some (connected_status ep serial), s)
      else (if text_eq st (bytes "unauthorized")
          then (some (new_status (some ep) needs_pairing (some pairing_hint)), s)
          else go_on)

  unfoldable pub drive :
      AdbConfig → Text → List Text → Option Text → Bool → S → Option AdbStatus × S
  unfolding host_state may_try listed_as
  drive cfg ep serials previous may_connect s =
      let (found, s') = host_state serials s in
      listed_as ep found s' (may_try cfg ep previous may_connect s')

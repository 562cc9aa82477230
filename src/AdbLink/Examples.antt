-- ===== src/AdbLink/Examples.antt =====
-- adb_link.rs at a concrete phone and host.
use dial_f.Prelude.{◌≡◌, refl, Bool, true, false, none, some, [], ◌∷◌}
use dial_f.Prelude.Outcome.{ok}
use dial_f.Prelude.Text.{Text, bytes}
use dial_f.Share.Adb.Devices.{Device}
use dial_f.AdbLink.{Link, fresh}
use dial_f.AdbLink.Checks.{AdbHost, AdbConfig, join_path, resolve_adb, ends_in_slash}

abbrev phone : Text
phone = bytes "10.0.0.7:37251"

abbrev as_device : Device
as_device = record { serial = phone; state = bytes "device"; model = none }

-- The device list has the phone once `adb connect` has run.
abbrev desk : AdbHost Bool
desk = record {
  list_devices = λ s. (some (elim s [ true ↦ as_device ∷ [] | false ↦ [] ]), s);
  disconnect = λ adb old s. s;
  connect = λ adb ep s. (ok (bytes "connected to 10.0.0.7:37251"), true);
  set_status = λ st s. s;
}

abbrev eager : AdbConfig
eager = record { autoconnect = true; adb = some (bytes "/usr/bin/adb"); macos = false }

found_by_default :
    resolve_adb none none (some (bytes "/home/u")) false (λ p. true)
    ≡ some (bytes "/home/u/Android/Sdk/platform-tools/adb")
unfolding resolve_adb join_path ends_in_slash bytes
found_by_default = refl

abbrev checking : Link
checking = record { endpoint = some phone; backoff = fresh; busy = true }

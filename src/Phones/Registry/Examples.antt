-- ===== src/Phones/Registry/Examples.antt =====
-- registry.rs at two phones, one of them silent for long.
use dial_f.Prelude.{refl, none, [], ◌∷◌}
use dial_f.Prelude.Assoc.{lookup}
use dial_f.Prelude.Text.{bytes, text_eq}
use dial_f.Phones.Registry.{DeviceInfo, Registry}
use dial_f.Phones.Registry.Reaping.{IsKeyed}

abbrev quiet : DeviceInfo
quiet = record {
  id = bytes "a";
  name = bytes "A";
  addr = none;
  last_seen_ms = 100;
  current_call = none;
  adb = none;
}

abbrev two_phones : Registry
two_phones =
    (bytes "a", quiet) ∷ (bytes "b", record quiet { id = bytes "b"; last_seen_ms = 900 }) ∷ []

two_phones-IsKeyed : IsKeyed two_phones
unfolding lookup text_eq bytes
two_phones-IsKeyed = (refl, (refl, tt))

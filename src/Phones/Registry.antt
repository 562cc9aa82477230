-- ===== src/Phones/Registry.antt =====
-- registry.rs: the devices that are connected, by their ids. A time is in milliseconds.
pub mod Reaping
pub mod Listing
mod Examples
use dial_f.Prelude.{ℕ, Option, none, some, List, [], ◌∷◌, if◌then◌else◌, ltb}
use dial_f.Prelude.Assoc.{lookup, erase, insert}
use dial_f.Prelude.Text.{Text, text_eq}
use dial_f.Protocol.{Direction, CallState}
use dial_f.AdbLink.{AdbStatus}

pub record CallInfo : Type 0 where
  pub call_id : Text
  pub number : Option Text
  pub state : CallState
  pub direction : Direction

pub record DeviceInfo : Type 0 where
  pub id : Text
  pub name : Text
  pub addr : Option Text
  pub last_seen_ms : ℕ
  pub current_call : Option CallInfo
  pub adb : Option AdbStatus

abbrev pub Registry : Type 0
Registry = List (Text × DeviceInfo)

-- Registry::upsert, Registry::remove and Registry::get
abbrev pub upsert : DeviceInfo → Registry → Registry
upsert dev r = insert dev.id dev r

abbrev pub remove : Text → Registry → Registry
remove id r = erase id r

abbrev pub get : Text → Registry → Option DeviceInfo
get id r = lookup id r

-- A change through Registry::get_mut
unfoldable pub update : Text → (DeviceInfo → DeviceInfo) → Registry → Registry
unfolding text_eq
update id f [] = []
update id f ((k, d) ∷ r) =
    let rest = update id f r in if text_eq id k then (k, f d) ∷ r else (k, d) ∷ rest

unfoldable pub stale_ids : ℕ → Registry → List Text
stale_ids cutoff [] = []
stale_ids cutoff ((k, d) ∷ r) =
    let rest = stale_ids cutoff r in if ltb d.last_seen_ms cutoff then k ∷ rest else rest

unfoldable pub remove_all : List Text → Registry → Registry
unfolding erase
remove_all [] r = r
remove_all (id ∷ ids) r = remove_all ids (remove id r)

-- Registry::reap_older_than
unfoldable pub reap_older_than : ℕ → Registry → List Text × Registry
unfolding stale_ids remove_all
reap_older_than cutoff r = let stale = stale_ids cutoff r in (stale, remove_all stale r)

-- Registry::sole_device_id
unfoldable pub sole_device_id : Registry → Option Text
sole_device_id [] = none
sole_device_id ((k, d) ∷ []) = some k
sole_device_id (e ∷ e' ∷ r) = none

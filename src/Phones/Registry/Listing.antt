-- ===== src/Phones/Registry/Listing.antt =====
-- registry.rs: the list of the devices, sorted by id.
use dial_f.Prelude.{Bool, true, false, List, [], ◌∷◌, if◌then◌else◌, ltb, ◌==◌}
use dial_f.Prelude.Text.{Text}
use dial_f.Phones.Registry.{DeviceInfo, Registry}

-- The order of strings, byte by byte.
unfoldable pub text_leb : Text → Text → Bool
text_leb [] t = true
text_leb (a ∷ s) [] = false
text_leb (a ∷ s) (b ∷ t) = let rest = text_leb s t in if a == b then rest else ltb a b

unfoldable pub insert_device : DeviceInfo → List DeviceInfo → List DeviceInfo
unfolding text_leb
insert_device d [] = d ∷ []
insert_device d (e ∷ es) =
    let rest = insert_device d es in if text_leb d.id e.id then d ∷ e ∷ es else e ∷ rest

-- Registry::list
unfoldable pub list : Registry → List DeviceInfo
unfolding insert_device
list [] = []
list ((k, d) ∷ r) = insert_device d (list r)

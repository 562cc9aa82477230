-- ===== src/Phones/Registry/Reaping.antt =====
-- registry.rs: which devices a reaping removes.
use dial_f.Prelude.{
  ℕ, ◌≡◌, refl, sym, ◌∙◌, inl, inr, Bool, true, false, Option, none, some, List, [], ◌∷◌,
  Bool-cases, if◌then◌else◌, ltb, exists,
}
use dial_f.Prelude.Assoc.{lookup, lookup-erase, lookup-erase_other}
use dial_f.Prelude.Text.{Text, text_eq, text_eq_iff, text_eq_refl}
use dial_f.Phones.Registry.{
  DeviceInfo, Registry, get, remove, stale_ids, remove_all, reap_older_than,
}

-- No id stands twice, as in a hash map.
abbrev pub IsKeyed : Registry → Type 0
IsKeyed [] = Unit
IsKeyed ((k, d) ∷ r) = (get k r ≡ none) × IsKeyed r

-- The id is among the ones listed.
abbrev pub listed : Text → List Text → Bool
listed id ids = exists (text_eq id) ids

if_same : {A : Type 0} (b : Bool) (x : A) → (if b then x else x) ≡ x
if_same true x = refl
if_same false x = refl

get-remove_other :
    (id k : Text) (r : Registry) → text_eq id k ≡ false → get id (remove k r) ≡ get id r
get-remove_other id k r e =
    lookup-erase_other id k r
      (λ q. let d : text_eq id k ≡ true = rw q (text_eq_refl k) in absurd (let c = sym e ∙ d in cc))

get-remove : (id k : Text) (r : Registry) → text_eq id k ≡ true → get id (remove k r) ≡ none
get-remove id k r e = rw ((text_eq_iff id k).0 e) (lookup-erase k r)

lookup-remove_all :
    (id : Text) (ids : List Text) (r : Registry)
    → get id (remove_all ids r) ≡ (if listed id ids then none else get id r)
unfolding remove_all
lookup-remove_all id [] r = refl
lookup-remove_all id (k ∷ ids) r =
    let ih = lookup-remove_all id ids (remove k r) in
    elim (Bool-cases (text_eq id k)) [
      | inl e ↦ rw e (ih ∙ rw (get-remove id k r e) (if_same (listed id ids) none))
      | inr e ↦ rw e (ih ∙ rw (get-remove_other id k r e) refl)
    ]

-- A device is stale.
abbrev pub is_stale : ℕ → Option DeviceInfo → Bool
is_stale cutoff o = elim o [ none ↦ false | some d ↦ ltb d.last_seen_ms cutoff ]

listed-stale_ids :
    (id : Text) (cutoff : ℕ) (r : Registry)
    → IsKeyed r
    → listed id (stale_ids cutoff r) ≡ is_stale cutoff (get id r)
unfolding stale_ids lookup
listed-stale_ids id cutoff [] k = refl
listed-stale_ids id cutoff ((i, d) ∷ r) k =
    let ih = listed-stale_ids id cutoff r k.1 in
    elim (Bool-cases (text_eq id i)) [
      | inl e ↦
          let gone : get id r ≡ none = rw ((text_eq_iff id i).0 e) k.0 in
          let ih' : listed id (stale_ids cutoff r) ≡ false = ih ∙ rw gone refl in
          elim (Bool-cases (ltb d.last_seen_ms cutoff)) [
            | inl s ↦ rw (s, e, s) refl
            | inr s ↦ rw (s, e, s) ih'
          ]
      | inr e ↦ elim (Bool-cases (ltb d.last_seen_ms cutoff)) [
        | inl s ↦ rw (s, e) ih
        | inr s ↦ rw (s, e) ih
      ]
    ]

-- A reaping removes exactly the devices that were last seen before the cutoff, reports their ids,
-- and leaves every other device as it was.
pub reap_older_than-get :
    (id : Text) (cutoff : ℕ) (r : Registry)
    → IsKeyed r
    → (get id (reap_older_than cutoff r).1
        ≡ (if is_stale cutoff (get id r) then none else get id r))
      × (listed id (reap_older_than cutoff r).0 ≡ is_stale cutoff (get id r))
unfolding reap_older_than
reap_older_than-get id cutoff r k =
    let e = listed-stale_ids id cutoff r k in
    (lookup-remove_all id (stale_ids cutoff r) r ∙ rw e refl, e)

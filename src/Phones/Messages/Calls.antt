-- ===== src/Phones/Messages/Calls.antt =====
-- transport/phone_server.rs: which calls dialfd hangs up after a crash, and how many jobs it starts.
use dial_f.Prelude.{
  ◌≡◌, ◌⊎◌, refl, ap, ◌∙◌, inl, inr, true, false, ◌&&◌, not, Option, none, some, Bool-cases, arith,
}
use dial_f.Prelude.Assoc.{lookup, erase, lookup-insert, lookup-erase}
use dial_f.Prelude.Text.{Text, text_eq, text_eq_iff}
use dial_f.Protocol.{hangup}
use dial_f.Phones.Hub.Sending.{fire}
use dial_f.Daemon.{DaemonState, write_call_marker, remove_call_marker, marker_name}
use dial_f.Phones.Messages.{note_active, settle_orphan, mark_driven}

-- The device's call outlived a crash, and no job runs.
abbrev pub IsOrphan : Text → Text → DaemonState → Type 0
IsOrphan d c st = (lookup d st.pending_orphans ≡ some c) × (st.card_busy ≡ false)

differ : {m c : Text} → some m ≡ some c → text_eq m c ≡ false → ⊥
differ {m} {c} h e =
    let q : m ≡ c = ground arith in let t : text_eq m c ≡ true = (text_eq_iff m c).1 q in cc

-- Marking changes neither the hub nor what is left of an earlier run.
mark_driven_lem :
    (d c : Text) (st : DaemonState)
    → ((mark_driven d c st).hub ≡ st.hub)
      × ((mark_driven d c st).pending_orphans ≡ st.pending_orphans)
      × (st.card_busy ≡ true → lookup (marker_name d) (mark_driven d c st).markers ≡ some (d, c))
      × (st.card_busy ≡ false → (mark_driven d c st).markers ≡ st.markers)
unfolding mark_driven write_call_marker
mark_driven_lem d c st = elim (Bool-cases st.card_busy) [
  | inl b ↦ rw b (refl, refl, λ h. lookup-insert (marker_name d) (d, c) st.markers, λ h. cc)
  | inr b ↦ rw b (refl, refl, λ h. cc, λ h. refl)
]

-- Settling a mark removes the marker's file, whichever call it names; without one nothing changes.
settle_orphan-markers :
    (d c : Text) (o : Option Text) (st : DaemonState)
    → ((m : Text) → o ≡ some m → lookup (marker_name d) (settle_orphan d c o st).markers ≡ none)
      × (o ≡ none → (settle_orphan d c o st).markers ≡ st.markers)
unfolding settle_orphan remove_call_marker
settle_orphan-markers d c none st = (λ m h. cc, λ h. refl)
settle_orphan-markers d c (some m) st = elim (Bool-cases (text_eq m c && not st.card_busy)) [
  | inl e ↦ rw e (λ k h. lookup-erase (marker_name d) st.markers, λ h. cc)
  | inr e ↦ rw e (λ k h. lookup-erase (marker_name d) st.markers, λ h. cc)
]

-- What settling the mark `o` does.
settle_orphan_lem :
    (d c : Text) (o : Option Text) (st : DaemonState)
    → ((((o ≡ some c) × (st.card_busy ≡ false))
          × ((settle_orphan d c o st).hub ≡ (fire d (hangup (some c)) st.hub).1))
        ⊎ (((o ≡ some c) × (st.card_busy ≡ false) → ⊥) × ((settle_orphan d c o st).hub ≡ st.hub)))
      × ((settle_orphan d c o st).pending_orphans ≡ st.pending_orphans)
      × ((settle_orphan d c o st).card_busy ≡ st.card_busy)
unfolding settle_orphan remove_call_marker
settle_orphan_lem d c none st = (inr (λ h. let e = h.0 in cc, refl), refl, refl)
settle_orphan_lem d c (some m) st = elim (Bool-cases (text_eq m c)) [
  | inl e ↦ elim (Bool-cases st.card_busy) [
    | inl b ↦ rw (e, b) (inr (λ h. let x = h.1 in cc, refl), refl, refl)
    | inr b ↦ rw (e, b) (inl ((ap (λ t. some t) ((text_eq_iff m c).0 e), refl), refl), refl, refl)
  ]
  | inr e ↦ rw e (inr (λ h. differ (h.0) e, refl), refl, refl)
]

-- Reporting a call active hangs it up exactly when it outlived a crash and no job runs; any other
-- call is left alone. Afterwards the device has no mark left of an earlier run. When a job runs, the
-- device's marker file names this call; when none runs, a device that had a mark of an earlier run
-- has no marker file left, and for one that had none no marker file changes.
pub note_active_lem :
    (d c : Text) (st : DaemonState)
    → ((IsOrphan d c st × ((note_active d c st).hub ≡ (fire d (hangup (some c)) st.hub).1))
        ⊎ ((IsOrphan d c st → ⊥) × ((note_active d c st).hub ≡ st.hub)))
      × (lookup d (note_active d c st).pending_orphans ≡ none)
      × (st.card_busy ≡ true → lookup (marker_name d) (note_active d c st).markers ≡ some (d, c))
      × ((m : Text)
          → st.card_busy ≡ false
          → lookup d st.pending_orphans ≡ some m
          → lookup (marker_name d) (note_active d c st).markers ≡ none)
      × (st.card_busy ≡ false
          → lookup d st.pending_orphans ≡ none
          → (note_active d c st).markers ≡ st.markers)
unfolding note_active
note_active_lem d c st =
    let cleared = record st { pending_orphans = erase d st.pending_orphans } in
    let (h, o, b) = settle_orphan_lem d c (lookup d st.pending_orphans) cleared in
    let settled = settle_orphan d c (lookup d st.pending_orphans) cleared in
    let (removed, kept) = settle_orphan-markers d c (lookup d st.pending_orphans) cleared in
    let (h', o', m, free) = mark_driven_lem d c settled in
    (
      elim h [ inl (x, y) ↦ inl (x, h' ∙ y) | inr (x, y) ↦ inr (x, h' ∙ y) ],
      ap (lookup d) (o' ∙ o) ∙ lookup-erase d st.pending_orphans,
      λ busy. m (b ∙ busy),
      λ k idle at. ap (lookup (marker_name d)) (free (b ∙ idle)) ∙ removed k at,
      λ idle at. free (b ∙ idle) ∙ kept at,
    )

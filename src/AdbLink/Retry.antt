-- ===== src/AdbLink/Retry.antt =====
-- adb_link.rs: how often `adb connect` is tried.
use dial_f.Prelude.{
  ℕ, zero, suc, ◌+◌, ◌*◌, ◌^◌, ◌<◌, ◌≡◌, ◌≢◌, refl, sym, ap, ◌∙◌, min, true, false, none, some,
  Bool-cases, arith, inl, inr,
}
use dial_f.Prelude.Text.{Text, text_eq, text_eq_iff, text_eq_refl}
use dial_f.AdbLink.{
  AdbState, connected, available, off, connecting, needs_pairing, blocked_local_network,
  adb_not_found, failing, Backoff, fresh, ready, failed, Link, same_endpoint, begin_check,
  end_check, first_retry, max_retry,
}

-- The backoff after a number of failures in a row, at any times.
pub failures : ℕ → (ℕ → ℕ) → Backoff
unfolding failed
failures zero times = fresh
failures (suc n) times = failed (times n) (failures n times)

pow_suc : (n : ℕ) → 2 ^ suc n ≡ 2 ^ n * 2
pow_suc n = omega arith

-- The delay starts at 30 s and doubles with each failure in a row, up to 5 minutes.
pub failures-delay :
    (n : ℕ) (times : ℕ → ℕ) → (failures n times).delay ≡ min (first_retry * 2 ^ n) max_retry
unfolding failures failed
failures-delay zero times = omega arith
failures-delay (suc n) times = omega (arith, pow_suc n, failures-delay n times)

-- A check that ended without finding the phone.
abbrev pub Failure : AdbState → Type 0
Failure s = (s ≢ connected) × (s ≢ available)

end_check-failed :
    (s : AdbState) (now : ℕ) (l : Link)
    → Failure s
    → end_check (some s) now l ≡ record l { busy = false; backoff = failed now l.backoff }
unfolding end_check
end_check-failed connected now l f = absurd (f.0 refl)
end_check-failed available now l f = absurd (f.1 refl)
end_check-failed off now l f = refl
end_check-failed connecting now l f = refl
end_check-failed needs_pairing now l f = refl
end_check-failed blocked_local_network now l f = refl
end_check-failed adb_not_found now l f = refl
end_check-failed failing now l f = refl

text_eq-apart : (s t : Text) → s ≢ t → text_eq s t ≡ false
text_eq-apart s t n = elim (Bool-cases (text_eq s t)) [
  | inl e ↦ absurd (n ((text_eq_iff s t).0 e))
  | inr e ↦ e
]

begin_check-same :
    (ep : Text) (later : ℕ) (l : Link)
    → l.busy ≡ false
    → l.endpoint ≡ some ep
    → begin_check ep later l ≡ some (none, ready later l.backoff, record l { busy = true })
unfolding begin_check
begin_check-same ep later l b e =
    let q : same_endpoint l.endpoint ep ≡ true = ap (λ o. same_endpoint o ep) e ∙ text_eq_refl ep in
    rw (begin_check, b, q) refl

begin_check-moved :
    (ep ep' : Text) (later : ℕ) (l : Link)
    → l.busy ≡ false
    → l.endpoint ≡ some ep
    → ep' ≢ ep
    → begin_check ep' later l
      ≡ some (some ep, true, record { endpoint = some ep'; backoff = fresh; busy = true })
unfolding begin_check
begin_check-moved ep ep' later l b e n =
    let q : same_endpoint l.endpoint ep' ≡ false =
      ap (λ o. same_endpoint o ep') e ∙ text_eq-apart ep ep' (λ p. n (sym p)) in
    rw (begin_check, b, q) (rw e refl)

-- After a check that failed, a heartbeat that reports the same endpoint looks at the device list but
-- lets no `adb connect` run before the delay is over; a new endpoint may be tried at once.
pub end_check-begin_check :
    (s : AdbState) (now later : ℕ) (ep ep' : Text) (l : Link)
    → Failure s
    → l.endpoint ≡ some ep
    → (later < now + l.backoff.delay
        → begin_check ep later (end_check (some s) now l)
          ≡ some (none, false, record (end_check (some s) now l) { busy = true }))
      × (ep' ≢ ep
          → begin_check ep' later (end_check (some s) now l)
            ≡ some (some ep, true, record { endpoint = some ep'; backoff = fresh; busy = true }))
unfolding failed ready
end_check-begin_check s now later ep ep' l f e = rw (end_check-failed s now l f) (
  (λ h.
      let q : ready later (failed now l.backoff) ≡ false = ground arith in
      begin_check-same ep later (record l { busy = false; backoff = failed now l.backoff }) refl e
      ∙ rw q refl),
  (λ n.
      begin_check-moved ep ep' later (record l { busy = false; backoff = failed now l.backoff })
        refl e n),
)

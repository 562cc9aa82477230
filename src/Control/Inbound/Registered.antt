-- ===== src/Control/Inbound/Registered.antt =====
-- daemon.rs: the numbers that a session has registered.
use dial_f.Prelude.{
  ℕ, ◌≡◌, refl, sym, ◌∙◌, true, false, not, some, List, [], ◌∷◌, exists, keep, All, Bool-cases, inl,
  inr, if◌then◌else◌, ◌==◌,
}
use dial_f.Prelude.Assoc.{lookup, erase, insert, lookup-insert, lookup-insert_other}
use dial_f.Prelude.Text.{Text, text_eq, text_eq_iff}
use dial_f.Daemon.{DaemonState, AutoanswerOverride, register_override}
use dial_f.Control.Inbound.{register_all}

unfoldable pub register_numbers :
    List Text
    → AutoanswerOverride
    → List (Text × AutoanswerOverride)
    → List (Text × AutoanswerOverride)
register_numbers [] ov m = m
register_numbers (n ∷ ns) ov m = register_numbers ns ov (insert n ov m)

pub register_all_lem :
    (ns : List Text) (ov : AutoanswerOverride) (st : DaemonState)
    → register_all ns ov st ≡ record st { overrides = register_numbers ns ov st.overrides }
unfolding register_all register_numbers
register_all_lem [] ov st = refl
register_all_lem (n ∷ ns) ov st = register_all_lem ns ov (register_override n ov st)

true-false : ¬ (true ≡ false)
true-false h = cc

lookup-insert_same :
    (k n : Text) (ov : AutoanswerOverride) (m : List (Text × AutoanswerOverride))
    → text_eq k n ≡ true
    → lookup k (insert n ov m) ≡ some ov
lookup-insert_same k n ov m h = rw (sym ((text_eq_iff k n).0 h)) (lookup-insert k ov m)

pub lookup-register_numbers :
    (k : Text) (ns : List Text) (ov : AutoanswerOverride) (m : List (Text × AutoanswerOverride))
    → lookup k (register_numbers ns ov m)
      ≡ (if exists (λ n. text_eq k n) ns then some ov else lookup k m)
unfolding register_numbers
lookup-register_numbers k [] ov m = refl
lookup-register_numbers k (n ∷ ns) ov m =
    let served = exists (λ n. text_eq k n) ns in
    lookup-register_numbers k ns ov (insert n ov m) ∙ elim (Bool-cases (text_eq k n)) [
      | inl b ↦
          rw (b, lookup-insert_same k n ov m b)
            (elim (Bool-cases served) [ inl c ↦ rw c refl | inr c ↦ rw c refl ])
      | inr b ↦
          rw (b, lookup-insert_other k n ov m (λ e. true-false (sym ((text_eq_iff k n).1 e) ∙ b)))
            refl
    ]

-- Entries of one session.
abbrev pub Owned : ℕ → List (Text × AutoanswerOverride) → Type 0
Owned t m = All (λ (e : Text × AutoanswerOverride). (e.1.token == t) ≡ true) m

erase-Owned :
    (t : ℕ) (k : Text) (m : List (Text × AutoanswerOverride)) → Owned t m → Owned t (erase k m)
unfolding erase
erase-Owned t k [] h = tt
erase-Owned t k ((j, v) ∷ m) h = elim (Bool-cases (text_eq k j)) [
  | inl e ↦ rw e (erase-Owned t k m h.1)
  | inr e ↦ rw e (h.0, erase-Owned t k m h.1)
]

pub register_numbers-Owned :
    (ns : List Text) (ov : AutoanswerOverride) (m : List (Text × AutoanswerOverride)) (t : ℕ)
    → (ov.token == t) ≡ true
    → Owned t m
    → Owned t (register_numbers ns ov m)
unfolding register_numbers insert
register_numbers-Owned [] ov m t e h = h
register_numbers-Owned (n ∷ ns) ov m t e h =
    register_numbers-Owned ns ov (insert n ov m) t e (e, erase-Owned t n m h)

pub keep-Owned :
    (t : ℕ) (m : List (Text × AutoanswerOverride))
    → Owned t m
    → keep (λ e. not (e.1.token == t)) m ≡ []
keep-Owned t [] h = refl
keep-Owned t ((j, v) ∷ m) h = rw h.0 (keep-Owned t m h.1)

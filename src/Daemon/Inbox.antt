-- ===== src/Daemon/Inbox.antt =====
-- daemon.rs: the inboxes, and who owns which auto-answer override.
use dial_f.Prelude.{
  ℕ, zero, suc, ◌-◌, ◌≡◌, refl, ap, ◌∙◌, inl, inr, none, some, List, [], ◌∷◌, ◌++◌, Bool-cases,
  arith, ltb, length, drop, take, min, ◌+◌, ◌≢◌, length-append,
}
use dial_f.Prelude.Assoc.{lookup-insert, lookup-insert_other}
use dial_f.Prelude.Text.{Text}
use dial_f.Protocol.{SmsRecord}
use dial_f.Daemon.{DaemonState, inbox_cap, inbox_of, capped, record_sms}

length-drop {ℓ} : {A : Type ℓ} (n : ℕ) (xs : List A) → length (drop n xs) ≡ length xs - n
length-drop zero xs = omega arith
length-drop (suc n) [] = omega arith
length-drop (suc n) (x ∷ xs) = length-drop n xs ∙ omega arith

take-drop {ℓ} : {A : Type ℓ} (n : ℕ) (xs : List A) → take n xs ++ drop n xs ≡ xs
take-drop zero xs = refl
take-drop (suc n) [] = refl
take-drop (suc n) (x ∷ xs) = ap (λ l. x ∷ l) (take-drop n xs)

-- The newest messages, as many as fit.
capped_lem :
    (v : List SmsRecord)
    → (length (capped v) ≡ min inbox_cap (length v))
      × ((old : List SmsRecord) × (old ++ capped v ≡ v))
unfolding capped
capped_lem v = elim (Bool-cases (ltb inbox_cap (length v))) [
  | inl e ↦ rw e (
    ground (arith, length-drop (length v - inbox_cap) v),
    (take (length v - inbox_cap) v, take-drop (length v - inbox_cap) v),
  )
  | inr e ↦ rw e (ground arith, ([], refl))
]

record_sms-capped :
    (d : Text) (rec : SmsRecord) (st : DaemonState)
    → inbox_of d (record_sms d rec st) ≡ capped (inbox_of d st ++ (rec ∷ []))
unfolding record_sms
record_sms-capped d rec st =
    ap (λ o. elim o [ none ↦ [] | some v ↦ v ])
      (lookup-insert d (capped (inbox_of d st ++ (rec ∷ []))) st.inbox)

record_sms-other :
    (d e : Text) (rec : SmsRecord) (st : DaemonState)
    → e ≢ d
    → inbox_of e (record_sms d rec st) ≡ inbox_of e st
unfolding record_sms
record_sms-other d e rec st n =
    ap (λ o. elim o [ none ↦ [] | some v ↦ v ])
      (lookup-insert_other e d (capped (inbox_of d st ++ (rec ∷ []))) st.inbox n)

-- A text message goes to the end of its device's inbox. The inbox then holds the newest messages, 200
-- of them, or all of them when there are no more than 200: the others, which are the oldest, are
-- gone. The inboxes of the other devices are as they were.
pub record_sms-inbox_of :
    (d : Text) (rec : SmsRecord) (st : DaemonState)
    → (length (inbox_of d (record_sms d rec st)) ≡ min inbox_cap (length (inbox_of d st) + 1))
      × ((old : List SmsRecord) × (old ++ inbox_of d (record_sms d rec st)
            ≡ inbox_of d st ++ (rec ∷ [])))
      × ((e : Text) → e ≢ d → inbox_of e (record_sms d rec st) ≡ inbox_of e st)
record_sms-inbox_of d rec st =
    let n : length (inbox_of d st ++ (rec ∷ [])) ≡ length (inbox_of d st) + 1 =
      length-append (inbox_of d st) (rec ∷ []) in
    let (len, cut) = capped_lem (inbox_of d st ++ (rec ∷ [])) in
    let same = λ (e : Text) (h : e ≢ d). record_sms-other d e rec st h in
    (
      ap (length {A = SmsRecord}) (record_sms-capped d rec st) ∙ (len ∙ ap (min inbox_cap) n),
      rw (record_sms-capped d rec st) cut,
      same,
    )

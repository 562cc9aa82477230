-- ===== src/Control/Overrides/Atomic.antt =====
-- daemon.rs: a refused override changes nothing, and a stored one is usable from anywhere.
use dial_f.Prelude.{
  ◌≡◌, refl, sym, Bool, true, false, not, Option, none, some, List, [], ◌∷◌, is_empty, All,
}
use dial_f.Prelude.Outcome.{Result, ok, err, ok_or, passed, passed-test, ok-injective}
use dial_f.Prelude.Text.{Text, bytes, trim}
use dial_f.Jobs.Schema.{Step}
use dial_f.Daemon.{DaemonState, InboundJob, answer_only, job_path, job_steps, is_absolute}
use dial_f.Control.{
  AutoanswerValue, inline_steps, yaml, job_file, ControlError, empty_number, Payload, Files, ◌>>=◌,
  ◌>>◌, lift, modify, gets,
}
use dial_f.Control.Validation.{
  JobMap, transpose, plays_relative, check_inline_paths, validate_record_dir, validate_value,
  validate_autoanswer,
}
use dial_f.Control.Overrides.{store, announce, or_keep, overrides_json, override_set}

-- A job that does not depend on the directory it is run from.
abbrev pub IsPlaced : InboundJob → Type 0
IsPlaced answer_only = Unit {0}
IsPlaced (job_path p) = is_absolute p ≡ true
IsPlaced (job_steps steps) = All (λ (step : Step). plays_relative step.kind ≡ false) steps

abbrev pub IsPlacedMap : JobMap → Type 0
IsPlacedMap m = All (λ (e : Text × InboundJob). (is_empty (trim e.0) ≡ false) × IsPlaced e.1) m

abbrev pub Every {ℓ κ} : {A : Type ℓ} → (A → Type κ) → Option A → Type κ
Every P none = Unit
Every P (some a) = P a

-- The overrides in force: an absolute directory, and jobs that do not depend on one.
abbrev pub IsSound : DaemonState → Type 0
IsSound st =
    Every (λ d. is_absolute d ≡ true) st.runtime_record_dir
    × Every IsPlacedMap st.runtime_autoanswer

not-true : (b : Bool) → not b ≡ false → b ≡ true
not-true true h = refl
not-true false h = cc

check_inline_paths-ok :
    (steps : List Step)
    → check_inline_paths steps ≡ ok tt
    → All (λ (step : Step). plays_relative step.kind ≡ false) steps
unfolding check_inline_paths
check_inline_paths-ok [] h = tt
check_inline_paths-ok (step ∷ steps) h =
    let p = passed-test (plays_relative step.kind) _ (check_inline_paths steps) tt h in
    (p.0, check_inline_paths-ok steps p.1)

transpose-ok {ℓ κ} :
    {A : Type ℓ} {B : Type κ} (P : B → Type 0) (f : A → Result ControlError B) (o : Option A)
    (r : Option B)
    → ((a : A) (b : B) → f a ≡ ok b → P b)
    → transpose f o ≡ ok r
    → Every P r
transpose-ok P f none r each h = rw (sym (ok-injective none r h)) tt
transpose-ok P f (some a) r each h =
    let b = passed (f a) _ r h in rw (sym (ok-injective (some b.0) r b.2)) (each a b.0 b.1)

Every-or_keep {ℓ} :
    {A : Type ℓ} (P : A → Type 0) (o old : Option A)
    → Every P o
    → Every P old
    → Every P (or_keep o old)
Every-or_keep P none old h k = k
Every-or_keep P (some a) old h k = h

module _ (files : Files) where
  validate_record_dir-ok :
      (dir d : Text) → validate_record_dir files dir ≡ ok d → is_absolute d ≡ true
  unfolding validate_record_dir
  validate_record_dir-ok dir d h =
      let p = passed-test (not (is_absolute dir)) _ _ d h in
      let q = passed-test (not (files.create_dir dir)) _ (ok dir) d p.1 in
      rw (sym (ok-injective dir d q.1)) (not-true (is_absolute dir) p.0)

  validate_value-ok :
      (v : Option AutoanswerValue) (j : InboundJob) → validate_value files v ≡ ok j → IsPlaced j
  unfolding validate_value
  validate_value-ok none j h = rw (sym (ok-injective answer_only j h)) tt
  validate_value-ok (some (job_file p)) j h =
      let a = passed-test (not (is_absolute p)) _ _ j h in
      let b = passed (ok_or (files.read_file p) _) _ j a.1 in
      let c = passed (ok_or (files.parse_job b.0) _) _ j b.2 in
      rw (sym (ok-injective (job_path p) j c.2)) (not-true (is_absolute p) a.0)
  validate_value-ok (some (yaml text)) j h =
      let a = passed (ok_or (files.parse_job text) _) _ j h in
      let b = passed (check_inline_paths a.0) _ j a.2 in
      rw (sym (ok-injective (job_steps a.0) j b.2)) (check_inline_paths-ok a.0 b.1)
  validate_value-ok (some (inline_steps steps)) j h =
      let b = passed (check_inline_paths steps) _ j h in
      rw (sym (ok-injective (job_steps steps) j b.2)) (check_inline_paths-ok steps b.1)

  validate_autoanswer-ok :
      (m : List (Text × Option AutoanswerValue)) (jobs : JobMap)
      → validate_autoanswer files m ≡ ok jobs
      → IsPlacedMap jobs
  unfolding validate_autoanswer
  validate_autoanswer-ok [] jobs h = rw (sym (ok-injective [] jobs h)) tt
  validate_autoanswer-ok ((n, v) ∷ m) jobs h =
      let a = passed-test (is_empty (trim n)) empty_number _ jobs h in
      let b = passed (validate_value files v) _ jobs a.1 in
      let c = passed (validate_autoanswer files m) _ jobs b.2 in
      rw (sym (ok-injective ((n, b.0) ∷ c.0) jobs c.2))
        ((a.0, validate_value-ok v b.0 b.1), validate_autoanswer-ok m c.0 c.1)

-- A refusal leaves the state as it was. An answer reports the state that it leaves, which is sound.
abbrev pub IsSettled :
    {R : Type 0} → DaemonState → Result ControlError (Payload R) × DaemonState → Type 0
IsSettled st (err e, st') = st' ≡ st
IsSettled st (ok p, st') = IsSound st' × p ≡ overrides_json st'

both-IsSettled :
    (R : Type 0) (ds : Result ControlError (Option Text)) (js : Result ControlError (Option JobMap))
    (st : DaemonState)
    → ((d : Option Text) → ds ≡ ok d → Every (λ t. is_absolute t ≡ true) d)
    → ((j : Option JobMap) → js ≡ ok j → Every IsPlacedMap j)
    → IsSound st
    → IsSettled {R = R} st (
        (do
          dir ← lift ds
          jobs ← lift js
          modify (λ s. announce (bytes "override set: ") (store dir jobs s))
          gets overrides_json)
          st)
unfolding announce
both-IsSettled R (err e) js st hd hj sound = refl
both-IsSettled R (ok d) (err e) st hd hj sound = refl
both-IsSettled R (ok d) (ok j) st hd hj sound = (
  (
    Every-or_keep _ d st.runtime_record_dir (hd d refl) sound.0,
    Every-or_keep IsPlacedMap j st.runtime_autoanswer (hj j refl) sound.1,
  ),
  refl,
)

-- Take a daemon in which every override in force is sound: an absolute recording directory, and jobs
-- that do not depend on the directory they are run from, under numbers that are not blank. A request
-- to set overrides either is refused, and then it leaves the daemon as it was, or answers with the
-- overrides that are in force after it, and those are sound.
pub override_set-IsSettled :
    (R : Type 0) (files : Files) (dir : Option Text)
    (jobs : Option (List (Text × Option AutoanswerValue))) (st : DaemonState)
    → IsSound st
    → IsSettled {R = R} st (override_set files dir jobs st)
unfolding override_set
override_set-IsSettled R files none none st sound = refl
override_set-IsSettled R files (some d) jobs st sound =
    both-IsSettled R (transpose (validate_record_dir files) (some d))
      (transpose (validate_autoanswer files) jobs) st
      (λ r h. transpose-ok _ _ (some d) r (validate_record_dir-ok files) h)
      (λ r h. transpose-ok IsPlacedMap _ jobs r (validate_autoanswer-ok files) h) sound
override_set-IsSettled R files none (some js) st sound =
    both-IsSettled R (ok none) (transpose (validate_autoanswer files) (some js)) st
      (λ r h. transpose-ok _ (validate_record_dir files) none r (validate_record_dir-ok files) h)
      (λ r h. transpose-ok IsPlacedMap _ (some js) r (validate_autoanswer-ok files) h) sound

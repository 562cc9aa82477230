-- ===== src/Control/Validation.antt =====
-- daemon.rs: the checks of a request, before anything is stored.
use dial_f.Prelude.{Bool, false, not, Option, none, some, List, [], ◌∷◌, is_empty}
use dial_f.Prelude.Outcome.{Result, ok, ◌>>=◌, ◌>>◌, bail_if, ok_or}
use dial_f.Prelude.Text.{Text, trim}
use dial_f.Jobs.Schema.{Step, StepKind, audio_play}
use dial_f.Daemon.{InboundJob, answer_only, job_path, job_steps, is_absolute}
use dial_f.Control.{
  AutoanswerValue, inline_steps, yaml, job_file, ControlError, record_dir_relative,
  record_dir_failed, empty_number, job_relative, job_unreadable, job_unparsed, play_relative, Files,
}

abbrev pub JobMap : Type 0
JobMap = List (Text × InboundJob)

-- `opt.map(f).transpose()?`
abbrev pub transpose {ℓ κ} :
    {A : Type ℓ} {B : Type κ}
    → (A → Result ControlError B)
    → Option A
    → Result ControlError (Option B)
transpose f none = ok none
transpose f (some a) = f a >>= λ b. ok (some b)

-- A step that plays a file whose path is not absolute.
unfoldable pub plays_relative : StepKind → Bool
unfolding is_absolute
plays_relative (audio_play file) = not (is_absolute file)
plays_relative k = false

unfoldable pub check_inline_paths : List Step → Result ControlError (Unit {0})
unfolding plays_relative
check_inline_paths [] = ok tt
check_inline_paths (step ∷ steps) = do
  bail_if (plays_relative step.kind) play_relative
  check_inline_paths steps

module _ (files : Files) where
  unfoldable pub validate_record_dir : Text → Result ControlError Text
  unfolding is_absolute
  validate_record_dir dir = do
    bail_if (not (is_absolute dir)) record_dir_relative
    bail_if (not (files.create_dir dir)) record_dir_failed
    ok dir

  unfoldable pub validate_value : Option AutoanswerValue → Result ControlError InboundJob
  unfolding is_absolute check_inline_paths
  validate_value none = ok answer_only
  validate_value (some (job_file p)) = do
    bail_if (not (is_absolute p)) job_relative
    text ← ok_or (files.read_file p) job_unreadable
    steps ← ok_or (files.parse_job text) job_unparsed
    ok (job_path p)
  validate_value (some (yaml text)) = do
    steps ← ok_or (files.parse_job text) job_unparsed
    check_inline_paths steps
    ok (job_steps steps)
  validate_value (some (inline_steps steps)) = do check_inline_paths steps; ok (job_steps steps)

  -- The numbers of a map are distinct.
  unfoldable pub validate_autoanswer :
      List (Text × Option AutoanswerValue) → Result ControlError JobMap
  unfolding validate_value trim
  validate_autoanswer [] = ok []
  validate_autoanswer ((number, value) ∷ m) = do
    bail_if (is_empty (trim number)) empty_number
    job ← validate_value value
    rest ← validate_autoanswer m
    ok ((number, job) ∷ rest)

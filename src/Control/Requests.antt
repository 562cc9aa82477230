-- ===== src/Control/Requests.antt =====
-- daemon.rs: what a request names, a device or a job, and the checks that come before a job.
use dial_f.Prelude.{
  Bool, true, false, ◌||◌, Option, none, some, List, [], ◌∷◌, map, exists, if◌then◌else◌, ◌==◌,
}
use dial_f.Prelude.Outcome.{Result, ok, err, ok_or, ◌>>=◌}
use dial_f.Prelude.Text.{Text, bytes, is_some}
use dial_f.Jobs.Schema.{
  Step, StepKind, audio_play, call_dial, call_wait_answered, call_answer, call_hangup, sms_send,
}
use dial_f.Phones.Registry.{get, sole_device_id}
use dial_f.Daemon.{DaemonState, resolve_under}
use dial_f.Control.{
  ControlError, unknown_device, no_sole_device, job_source_missing, job_unreadable, job_unparsed,
  Files,
}
use dial_f.Control.Validation.{transpose, validate_record_dir}

-- A step that talks to the phone.
unfoldable pub needs_phone : StepKind → Bool
needs_phone (call_dial n) = true
needs_phone (call_wait_answered t) = true
needs_phone call_answer = true
needs_phone call_hangup = true
needs_phone (sms_send t b) = true
needs_phone _ = false

unfoldable pub job_needs_phone : List Step → Bool
unfolding needs_phone
job_needs_phone job = exists (λ (s : Step). needs_phone s.kind) job

-- The directory that a path stands in, without its last separator; nothing for a bare name.
unfoldable pub parent : Text → Option Text
parent [] = none
parent (c ∷ s) = elim (parent s) [
  | some d ↦ some (c ∷ d)
  | none ↦ if exists (λ b. b == 47) s then some (c ∷ []) else none
]

-- A file to play is looked for beside the job.
unfoldable pub place_play : Text → Step → Step
unfolding resolve_under
place_play base step = elim step.kind [
  | audio_play file ↦ record step { kind = audio_play (resolve_under (some base) file) }
  | _ ↦ step
]

unfoldable pub resolve_device : Option Text → DaemonState → Result ControlError Text
unfolding sole_device_id
resolve_device (some d) st = elim (get d st.registry) [ some i ↦ ok d | none ↦ err unknown_device ]
resolve_device none st = ok_or (sole_device_id st.registry) no_sole_device

unfoldable pub load_job_file : Files → Text → Result ControlError (List Step)
unfolding parent place_play
load_job_file files path = elim (files.read_file path) [
  | none ↦ err job_unreadable
  | some text ↦ elim (files.parse_job text) [
    | none ↦ err job_unparsed
    | some job ↦ elim (parent path) [ none ↦ ok job | some base ↦ ok (map (place_play base) job) ]
  ]
]

-- The steps to run.
unfoldable pub job_source :
    Files → Option Text → Option (List Step) → Result ControlError (List Step)
unfolding load_job_file
job_source files (some path) steps = load_job_file files path
job_source files none (some steps) = ok steps
job_source files none none = err job_source_missing

-- The device to run them on: a job of sounds alone needs none.
unfoldable pub job_device : Option Text → List Step → DaemonState → Result ControlError Text
unfolding resolve_device job_needs_phone
job_device device job st =
    if is_some device || job_needs_phone job then resolve_device device st else ok (bytes "local")

-- A `job.run` request that has passed its checks.
pub record Admitted : Type 0 where
  pub dir : Option Text
  pub job : List Step
  pub device_id : Text

-- The checks, in their order; none of them changes anything but the disk.
unfoldable pub check_run :
    Files
    → (path : Option Text) → (steps : Option (List Step)) → (device record_dir : Option Text)
    → DaemonState
    → Result ControlError Admitted
unfolding validate_record_dir job_source job_device
check_run files path steps device record_dir st = do
  dir ← transpose (validate_record_dir files) record_dir
  job ← job_source files path steps
  device_id ← job_device device job st
  ok (record { dir = dir; job = job; device_id = device_id })

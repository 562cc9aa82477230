-- ===== src/Control/Overrides.antt =====
-- daemon.rs: the runtime overrides, set, shown and cleared over the control socket.
pub mod Atomic
use dial_f.Prelude.{
  ℕ, Bool, true, false, not, ◌&&◌, ◌||◌, Option, none, some, List, [], ◌∷◌, ◌++◌, length,
  if◌then◌else◌,
}
use dial_f.Prelude.Text.{Text, bytes, decimal}
use dial_f.Daemon.{DaemonState, InboundJob, answer_only, job_path, job_steps, emit}
use dial_f.Control.{
  AutoanswerValue, override_empty, Payload, overrides_data, JobView, view_answer_only, view_file,
  view_steps, Handler, fail, lift, modify, gets, Files, ◌>>=◌, ◌>>◌,
}
use dial_f.Control.Validation.{JobMap, transpose, validate_record_dir, validate_autoanswer}

-- What an override of the number is shown as. The source sorts the numbers; here they keep the order
-- of the request.
unfoldable pub view_job : InboundJob → JobView
view_job answer_only = view_answer_only
view_job (job_path p) = view_file p
view_job (job_steps s) = view_steps (length s)

unfoldable pub view_jobs : JobMap → List (Text × JobView)
unfolding view_job
view_jobs [] = []
view_jobs ((n, j) ∷ m) = (n, view_job j) ∷ view_jobs m

-- overrides_json
unfoldable pub overrides_json : {R : Type 0} → DaemonState → Payload R
unfolding view_jobs
overrides_json st =
    overrides_data st.runtime_record_dir
      (elim st.runtime_autoanswer [ none ↦ none | some m ↦ some (view_jobs m) ])

-- override_summary
unfoldable pub override_summary : DaemonState → Text
unfolding decimal
override_summary st =
    let rec : Text = elim st.runtime_record_dir [
      | some d ↦ bytes "record_dir=" ++ d
      | none ↦ bytes "record_dir=(config)"
    ] in
    let auto : Text = elim st.runtime_autoanswer [
      | some m ↦ bytes "autoanswer=" ++ (decimal (length m) ++ bytes " number(s)")
      | none ↦ bytes "autoanswer=(config)"
    ] in
    rec ++ (bytes ", " ++ auto)

-- overrides_summary_json: what `server.info` says of the overrides, when there are any.
unfoldable pub overrides_info : DaemonState → Option (Option Text × Option ℕ)
overrides_info st = elim st.runtime_record_dir [
  | some d ↦ some (some d, elim st.runtime_autoanswer [ none ↦ none | some m ↦ some (length m) ])
  | none ↦ elim st.runtime_autoanswer [ none ↦ none | some m ↦ some (none, some (length m)) ]
]

-- A new value, where there is one.
abbrev pub or_keep {ℓ} : {A : Type ℓ} → Option A → Option A → Option A
or_keep none old = old
or_keep (some a) old = some a

abbrev pub store : Option Text → Option JobMap → DaemonState → DaemonState
store dir jobs st = record st {
  runtime_record_dir = or_keep dir st.runtime_record_dir;
  runtime_autoanswer = or_keep jobs st.runtime_autoanswer;
}

-- The event line that follows a change.
unfoldable pub announce : Text → DaemonState → DaemonState
unfolding override_summary
announce what st = emit (what ++ override_summary st) st

abbrev pub both_absent {ℓ κ} : {A : Type ℓ} {B : Type κ} → Option A → Option B → Bool
both_absent none none = true
both_absent a b = false

module _ {R : Type 0} where
  unfoldable pub override_set :
      Files → Option Text → Option (List (Text × Option AutoanswerValue)) → Handler (Payload R)
  unfolding validate_record_dir validate_autoanswer announce overrides_json
  override_set files record_dir autoanswer =
      if both_absent record_dir autoanswer then fail override_empty else (do
        dir ← lift (transpose (validate_record_dir files) record_dir)
        jobs ← lift (transpose (validate_autoanswer files) autoanswer)
        modify (λ st. announce (bytes "override set: ") (store dir jobs st))
        gets overrides_json)

  unfoldable pub override_show : Handler (Payload R)
  unfolding overrides_json
  override_show = gets overrides_json

  unfoldable pub override_clear : Bool → Bool → Handler (Payload R)
  unfolding announce overrides_json
  override_clear record_dir autoanswer =
      let all = not record_dir && not autoanswer in
      do
        modify (λ st. announce (bytes "override cleared: now ") (record st {
          runtime_record_dir = if record_dir || all then none else st.runtime_record_dir;
          runtime_autoanswer = if autoanswer || all then none else st.runtime_autoanswer;
        }))
        gets overrides_json

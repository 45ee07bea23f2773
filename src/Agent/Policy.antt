-- ===== src/Agent/Policy.antt =====
-- The policy of an Agent: `LoadPolicy` and `SavePolicy` of internal/agent/policy.go, `FetchPolicy` of
-- client.go, and in runner.go its refresh in `runCycle`, and `applyPolicy`. What the file system and the
-- network do comes in as arguments.
pub mod Saved
pub mod Refresh
use my_safe.Prelude.{
  ℕ, ◌+◌, ◌*◌, Bool, true, false, not, ◌||◌, ◌&&◌, Option, none, some, List, [], ◌∷◌, ◌++◌, length,
  ltb, ◌==◌, if◌then◌else◌,
}
use my_safe.Prelude.Int.{ℤ, pos, negsuc, ltb_ℤ, neg_ℤ}
use my_safe.Prelude.Text.{Text, text_eq}
use my_safe.Domain.{Policy}
use my_safe.Domain.Validate.{PolicyError, validate_policy}

-- `policy.json`: not there, no regular file that can be read, or its content.
pub data PolicyFile : Type 0 where
  missing unusable : PolicyFile
  regular : Text → PolicyFile

-- JSON: `decode` is strict, and refuses what follows the value.
pub record PolicyCodec : Type 0 where
  pub encode : Policy → Option Text
  pub decode : Text → Option Policy

pub data PolicyFailure : Type 0 where
  not_small undecodable other_agent unencodable too_large no_directory not_written unregistered
        no_answer too_long bad_status stale :
      PolicyFailure
  invalid : PolicyError → PolicyFailure

-- What loading or fetching a policy gives: an error, no policy, or one.
pub data Got : Type 0 where
  failed : PolicyFailure → Got
  nothing : Got
  got : Policy → Got

abbrev pub max_policy_bytes : ℕ
max_policy_bytes = 256 * 1024

abbrev pub max_control_response_bytes : ℕ
max_control_response_bytes = 1024 * 1024

-- The two checks that follow a decoded policy.
checked_policy : Text → Option Policy → Got
checked_policy agent_id none = failed undecodable
checked_policy agent_id (some p) =
    if not (text_eq p.agent_id agent_id)
    then failed other_agent
    else elim (validate_policy p) [ some e ↦ failed (invalid e) | none ↦ got p ]

-- The answer of the control plane: its status, and its body.
pub record Answer : Type 0 where
  pub status : ℕ
  pub content : Text

-- Whether the state directory is there, and the new file is written and renamed.
pub record SaveOutcome : Type 0 where
  pub directory : Bool
  pub persisted : Bool

module _ (codec : PolicyCodec) where
  unfoldable pub load_policy : Text → PolicyFile → Got
  unfolding checked_policy
  load_policy agent_id missing = nothing
  load_policy agent_id unusable = failed not_small
  load_policy agent_id (regular content) =
      if length content == 0 || ltb max_policy_bytes (length content)
      then failed not_small
      else checked_policy agent_id (codec.decode content)

  save_encoded : SaveOutcome → Option Text → PolicyFile → Option PolicyFailure × PolicyFile
  save_encoded o none file = (some unencodable, file)
  save_encoded o (some encoded) file =
      if ltb max_policy_bytes (length (encoded ++ 10 ∷ []))
      then (some too_large, file)
      else if not o.persisted
      then (some not_written, file)
      else (none, regular (encoded ++ 10 ∷ []))

  -- `SavePolicy`, with the file that it leaves.
  unfoldable pub save_policy : SaveOutcome → Policy → PolicyFile → Option PolicyFailure × PolicyFile
  unfolding save_encoded
  save_policy o p file = elim (validate_policy p) [
    | some e ↦ (some (invalid e), file)
    | none ↦
        if not o.directory then (some no_directory, file) else save_encoded o (codec.encode p) file
  ]

  answered : Text → Option Answer → Got
  unfolding checked_policy
  answered agent_id none = failed no_answer
  answered agent_id (some a) =
      if ltb max_control_response_bytes (length a.content)
      then failed too_long
      else if a.status == 404
      then nothing
      else if not (a.status == 200)
      then failed bad_status
      else checked_policy agent_id (codec.decode a.content)

  -- `FetchPolicy` of an identity that is registered or not.
  unfoldable pub fetch_policy : Bool → Text → Option Answer → Got
  unfolding answered
  fetch_policy registered agent_id answer =
      if not registered then failed unregistered else answered agent_id answer

  -- A remote policy beside the local one: only a greater revision is saved, and a smaller one is an error.
  keep_newer : SaveOutcome → Policy → Got → PolicyFile → Option PolicyFailure × PolicyFile
  keep_newer o remote (failed e) file = (some e, file)
  keep_newer o remote nothing file = save_policy o remote file
  keep_newer o remote (got local) file =
      if ltb_ℤ local.revision remote.revision
      then save_policy o remote file
      else if ltb_ℤ remote.revision local.revision
      then (some stale, file)
      else (none, file)

  refresh_with : SaveOutcome → Text → Got → PolicyFile → Option PolicyFailure × PolicyFile
  unfolding keep_newer
  refresh_with o agent_id (failed e) file = (some e, file)
  refresh_with o agent_id nothing file = (none, file)
  refresh_with o agent_id (got remote) file = keep_newer o remote (load_policy agent_id file) file

  -- The refresh of the policy in one cycle.
  unfoldable pub refresh :
      SaveOutcome → Bool → Text → Option Answer → PolicyFile → Option PolicyFailure × PolicyFile
  unfolding refresh_with
  refresh o registered agent_id answer file =
      refresh_with o agent_id (fetch_policy registered agent_id answer) file

-- The fields of `Config` that a policy sets.
pub record Switches : Type 0 where
  pub disable_file_integrity : Bool
  pub file_watch_paths : List Text
  pub disable_ssh_auth : Bool
  pub ssh_threshold : ℤ
  pub ssh_window : ℤ
  pub disable_runtime_watch : Bool

-- `time.Duration(seconds) * time.Second`, which does not wrap around for the windows of valid policies.
abbrev pub duration : ℤ → ℤ
duration (pos n) = pos (n * 1000000000)
duration (negsuc n) = neg_ℤ (pos ((n + 1) * 1000000000))

with_files : Policy → Switches → Switches
with_files p c =
    if not p.file_integrity_enabled
    then record c { disable_file_integrity = true }
    else if not c.disable_file_integrity && ltb 0 (length p.file_watch_paths)
    then record c { file_watch_paths = p.file_watch_paths }
    else c

with_ssh : Policy → Switches → Switches
with_ssh p c =
    if not p.ssh_auth_enabled
    then record c { disable_ssh_auth = true }
    else if not c.disable_ssh_auth
    then record c { ssh_threshold = p.ssh_threshold; ssh_window = duration p.ssh_window_seconds }
    else c

with_runtime : Policy → Switches → Switches
with_runtime p c =
    if not p.runtime_watch_enabled then record c { disable_runtime_watch = true } else c

-- `applyPolicy`
unfoldable pub apply_policy : Switches → Policy → Switches
unfolding with_files with_ssh with_runtime
apply_policy c p = with_runtime p (with_ssh p (with_files p c))

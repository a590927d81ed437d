-- ===== src/Nextboot/Run.antt =====
-- nextboot/v1.go: an action is run, and its result reported.
pub mod Environ
pub mod Keeps
pub mod Cleanup
pub mod Files
pub mod Chains
use epoxy.Base.{
  ℕ, Str, ascii, ◌==◌, Bool, true, false, Option, none, some, List, [], ◌∷◌, Error,
  action_url_not_found, command_failed, Outcome, ok, err, Result, if◌then◌else◌,
}
use epoxy.Base.Dict.{Dict, lookup, insert}
use epoxy.Base.Exec.{Exec, pure, stop, lift, finally, ◌>>=◌, ◌>>◌}
use epoxy.Nextboot.Config.{Config, V1, Value}
use epoxy.Nextboot.Values.{interface_to_string_array}
use epoxy.Nextboot.Client.{Machine, Client, Action, remove_file, get_v1}
use epoxy.Nextboot.Load.{post_download, load_action, maybe_load_chain}
use epoxy.Nextboot.Environment.{update_current_env}
use epoxy.Nextboot.Evaluate.{
  evaluate_vars, evaluate_and_download_files, evaluate_env, evaluate_commands,
}

module _ {W : Type 0} where
  abbrev pub remove_named : Option Str → Client W → Client W
  remove_named none s = s
  remove_named (some fname) s = remove_file fname s

  unfoldable pub cleanup_specs : Dict (Dict Str) → Client W → Client W
  unfolding ascii
  cleanup_specs [] s = s
  cleanup_specs ((_, spec) ∷ rest) s =
      cleanup_specs rest (remove_named (lookup (ascii "name") spec) s)

  abbrev pub cleanup_v1 : Option V1 → Client W → Client W
  cleanup_v1 none s = s
  cleanup_v1 (some v1) s = cleanup_specs v1.files s

  unfoldable pub cleanup_files : Client W → Client W
  cleanup_files s = cleanup_v1 s.config.v1 s

abbrev pub blame : List Str → Outcome Error (Unit {0}) → Outcome Error (Unit {0})
blame args (ok u) = ok u
blame args (err e) = err (command_failed args e)

module _ {W : Type 0} (m : Machine W) where
  -- exec.CommandContext(…).Run()
  unfoldable pub run_command : List Str → Action W (Unit {0})
  run_command args s =
      let (r, files, w) = m.run_command args s.env s.files s.world in
      (blame args r, record s { files = files; world = w })

  abbrev pub is_empty : List Str → Bool
  is_empty [] = true
  is_empty (_ ∷ _) = false

  unfoldable pub execute : Bool → List Value → Action W (Unit {0})
  execute dryrun [] = pure tt
  execute dryrun (fields ∷ rest) =
      let args = interface_to_string_array fields in
      let later = execute dryrun rest in
      if is_empty args then later else if dryrun then later else (do run_command args; later)

  -- The commands under the action's environment, which is restored however they end.
  unfoldable pub execute_in_env : Bool → V1 → Action W (Unit {0})
  execute_in_env dryrun v1 s =
      let (changed, added, env) = update_current_env v1.env [] s.env in
      let (r, s') = execute dryrun v1.commands (record s { env = env }) in
      (r, record s' { env = (update_current_env changed added s'.env).2 })

  -- From evaluateAndDownloadFiles on; `cleanupFiles` is deferred.
  unfoldable pub evaluate_and_execute : Bool → Action W (Unit {0})
  evaluate_and_execute dryrun = do
    evaluate_and_download_files m dryrun
    evaluate_env m
    evaluate_commands m
    v1 ← get_v1
    execute_in_env dryrun v1

  unfoldable pub run_commands : Bool → Action W (Unit {0})
  run_commands dryrun = do evaluate_vars m; finally (evaluate_and_execute dryrun) cleanup_files

  abbrev pub url_of : Option Str → Result Str
  url_of none = err action_url_not_found
  url_of (some url) = ok url

  -- Run, where chains are followed for `fuel` rounds. The result says whether the chain ended.
  unfoldable pub run : ℕ → Str → Bool → Bool → Action W Bool
  unfolding ascii
  run fuel action add_kargs dryrun = do
    kargs ← λ s. (ok s.config.kargs, s)
    url ← lift (url_of (lookup action kargs))
    load_action m url (ascii "POST") add_kargs
    ended ← maybe_load_chain m fuel
    if ended then (do run_commands dryrun; pure true) else pure false

  -- Report; `values` are the form's, to which the configuration is added.
  unfoldable pub report : Str → Dict (List Str) → Bool → Action W (Unit {0})
  unfolding ascii
  report key values dryrun = do
    config ← λ s. (ok s.config, s)
    url ← lift (url_of (lookup key config.kargs))
    if dryrun then pure tt else do
      post_download m url (insert (ascii "debug.config") (m.config_string config ∷ []) values)
      pure tt

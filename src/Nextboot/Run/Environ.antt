-- ===== src/Nextboot/Run/Environ.antt =====
-- nextboot/v1.go: the environment of the process around the commands of runCommands.
use epoxy.Base.{Str, Bool, ◌≡◌, refl, List, [], ◌∷◌}
use epoxy.Base.Dict.{lookup, HasDistinctKeys}
use epoxy.Base.Exec.{Keeps, Keeps-pure, Keeps-bind, Keeps-if}
use epoxy.Nextboot.Config.{V1, Value}
use epoxy.Nextboot.Values.{interface_to_string_array}
use epoxy.Nextboot.Client.{Machine, Client}
use epoxy.Nextboot.Environment.{update_current_env}
use epoxy.Nextboot.Environment.Restore.{IsEnviron, update_current_env_restore}
use epoxy.Nextboot.Run.{is_empty, run_command, execute, execute_in_env}

module _ {W : Type 0} (m : Machine W) where
  -- Nothing but the files and the world changes.
  abbrev pub IsSameProcess : Client W → Client W → Type 0
  IsSameProcess s s' = (s'.config ≡ s.config) × (s'.env ≡ s.env)

  run_command-Keeps :
      (s : Client W) (args : List Str) → Keeps (IsSameProcess s) (run_command m args)
  unfolding run_command
  run_command-Keeps s args = record { at = λ s' h. h }

  execute-Keeps :
      (s : Client W) (dryrun : Bool) (commands : List Value)
      → Keeps (IsSameProcess s) (execute m dryrun commands)
  unfolding execute
  execute-Keeps s dryrun [] = Keeps-pure tt
  execute-Keeps s dryrun (fields ∷ rest) =
      let args = interface_to_string_array fields in
      let later = execute-Keeps s dryrun rest in
      Keeps-if (is_empty m args) _ _ (λ _. later)
        (λ _.
          Keeps-if dryrun _ _ (λ _. later)
            (λ _. Keeps-bind _ _ (run_command-Keeps s args) (λ _. later)))

  -- The commands of an action, whether they succeed, fail or are not run, leave the configuration
  -- as it was, and every variable of the environment at the value it had before them. The
  -- environment is one that os.Setenv can have made, and the action sets no variable twice.
  pub execute_in_env-IsSame :
      (dryrun : Bool) (v1 : V1) (s : Client W)
      → IsEnviron s.env
      → HasDistinctKeys v1.env
      → ((execute_in_env m dryrun v1 s).1.config ≡ s.config)
        × ((k : Str) → lookup k (execute_in_env m dryrun v1 s).1.env ≡ lookup k s.env)
  unfolding execute_in_env
  execute_in_env-IsSame dryrun v1 s environ d =
      let (changed, added, env) = update_current_env v1.env [] s.env in
      let kept =
        (execute-Keeps (record s { env = env }) dryrun v1.commands).at (record s { env = env })
          (refl, refl) in
      (kept.0, λ k. rw kept.1 (update_current_env_restore v1.env s.env environ d k))

-- ===== src/Nextboot/World/Runs.antt =====
-- nextboot/v1.go: a run and a report act on the world by the operations of `Machine` alone.
use epoxy.Base.{ℕ, Str, ascii, Bool, Option, none, some, List, [], ◌∷◌}
use epoxy.Base.Dict.{Dict, lookup}
use epoxy.Base.Exec.{Keeps, Keeps-pure, Keeps-lift, Keeps-bind, Keeps-if}
use epoxy.Nextboot.Config.{V1, Value}
use epoxy.Nextboot.Values.{interface_to_string_array}
use epoxy.Nextboot.Client.{Machine, Client, remove_file}
use epoxy.Nextboot.Run.{
  remove_named, cleanup_specs, cleanup_v1, cleanup_files, run_command, is_empty, execute,
  execute_in_env, evaluate_and_execute, run_commands, run, report,
}
use epoxy.Nextboot.World.{
  IsStable, InWorld, get_v1-Keeps, finally-Keeps, post_download-Keeps, load_action-Keeps,
  maybe_load_chain-Keeps, evaluate_vars-Keeps, evaluate_env-Keeps, evaluate_commands-Keeps,
  evaluate_and_download_files-Keeps,
}

module _ {W : Type 0} {P : W → Type 0} (m : Machine W) (stable : IsStable P m) where
  abbrev Kept : Client W → Type 0
  Kept s = InWorld m stable s

  remove_named-Kept : (fname : Option Str) (s : Client W) → Kept s → Kept (remove_named fname s)
  unfolding remove_file
  remove_named-Kept none s h = h
  remove_named-Kept (some f) s h = h

  cleanup_specs-Kept :
      (files : Dict (Dict Str)) (s : Client W) → Kept s → Kept (cleanup_specs files s)
  unfolding cleanup_specs ascii
  cleanup_specs-Kept [] s h = h
  cleanup_specs-Kept ((_, spec) ∷ rest) s h =
      cleanup_specs-Kept rest _ (remove_named-Kept (lookup (ascii "name") spec) s h)

  cleanup_v1-Kept : (v1 : Option V1) (s : Client W) → Kept s → Kept (cleanup_v1 v1 s)
  cleanup_v1-Kept none s h = h
  cleanup_v1-Kept (some v1) s h = cleanup_specs-Kept v1.files s h

  cleanup_files-Kept : (s : Client W) → Kept s → Kept (cleanup_files s)
  unfolding cleanup_files
  cleanup_files-Kept s h = cleanup_v1-Kept s.config.v1 s h

  run_command-Keeps : (args : List Str) → Keeps Kept (run_command m args)
  unfolding run_command
  run_command-Keeps args = record { at = λ s h. stable.run_command args s.env s.files s.world h }

  execute-Keeps : (dryrun : Bool) (commands : List Value) → Keeps Kept (execute m dryrun commands)
  unfolding execute
  execute-Keeps dryrun [] = Keeps-pure tt
  execute-Keeps dryrun (fields ∷ rest) =
      let args = interface_to_string_array fields in
      let later = execute-Keeps dryrun rest in
      Keeps-if (is_empty m args) _ _ (λ _. later)
        λ _.
          Keeps-if dryrun _ _ (λ _. later) λ _. Keeps-bind _ _ (run_command-Keeps args) λ _. later

  execute_in_env-Keeps : (dryrun : Bool) (v1 : V1) → Keeps Kept (execute_in_env m dryrun v1)
  unfolding execute_in_env
  execute_in_env-Keeps dryrun v1 = record {
    at = λ s h. (execute-Keeps dryrun v1.commands).at (record s { env = _ }) h;
  }

  run_commands-Keeps : (dryrun : Bool) → Keeps Kept (run_commands m dryrun)
  unfolding run_commands evaluate_and_execute
  run_commands-Keeps dryrun = Keeps-bind _ _ (evaluate_vars-Keeps m stable) λ _.
      finally-Keeps m stable _ cleanup_files cleanup_files-Kept (
        Keeps-bind _ _ (evaluate_and_download_files-Keeps m stable dryrun) λ _.
          Keeps-bind _ _ (evaluate_env-Keeps m stable) λ _.
            Keeps-bind _ _ (evaluate_commands-Keeps m stable)
              λ _. Keeps-bind _ _ (get_v1-Keeps m stable) λ v1. execute_in_env-Keeps dryrun v1)

  pub run-Keeps :
      (fuel : ℕ) (action : Str) (add_kargs dryrun : Bool)
      → Keeps Kept (run m fuel action add_kargs dryrun)
  unfolding run
  run-Keeps fuel action add_kargs dryrun =
      Keeps-bind _ _ (record { at = λ s h. h })
        λ kargs. Keeps-bind _ _ (Keeps-lift _) λ url.
          Keeps-bind _ _ (load_action-Keeps m stable _ _ _) λ _.
            Keeps-bind _ _ (maybe_load_chain-Keeps m stable fuel) λ ended.
              Keeps-if ended _ _
                (λ _. Keeps-bind _ _ (run_commands-Keeps dryrun) (λ _. Keeps-pure _))
                (λ _. Keeps-pure _)

  pub report-Keeps :
      (key : Str) (values : Dict (List Str)) (dryrun : Bool)
      → Keeps Kept (report m key values dryrun)
  unfolding report
  report-Keeps key values dryrun =
      Keeps-bind _ _ (record { at = λ s h. h })
        λ config. Keeps-bind _ _ (Keeps-lift _) λ url.
          Keeps-if dryrun _ _ (λ _. Keeps-pure _)
            (λ _. Keeps-bind _ _ (post_download-Keeps m stable _ _) (λ _. Keeps-pure _))

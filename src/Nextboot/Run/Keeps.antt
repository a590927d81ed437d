-- ===== src/Nextboot/Run/Keeps.antt =====
-- nextboot/v1.go: Run and Report, from the first download to the last command.
use epoxy.Base.{ℕ, Str, Bool, refl, sym, ◌∙◌, Option, none, some, [], ◌∷◌, ascii}
use epoxy.Base.Dict.{Dict, lookup, HasDistinctKeys}
use epoxy.Base.Exec.{Keeps, Keeps-pure, Keeps-lift, Keeps-bind, Keeps-if}
use epoxy.Nextboot.Config.{V1}
use epoxy.Nextboot.Client.{Machine, Client, remove_file}
use epoxy.Nextboot.Kept.{HasMaps, DecodesMaps, IsKept, Kept, finally-Keeps}
use epoxy.Nextboot.Load.Keeps.{load_action-Keeps, maybe_load_chain-Keeps}
use epoxy.Nextboot.Evaluate.Keeps.{
  with_v1-Keeps, evaluate_vars-Keeps, evaluate_env-Keeps, evaluate_commands-Keeps,
  evaluate_and_download_files-Keeps,
}
use epoxy.Nextboot.Environment.Restore.{IsEnviron}
use epoxy.Nextboot.Run.{
  remove_named, cleanup_specs, cleanup_v1, cleanup_files, execute_in_env, evaluate_and_execute,
  run_commands, run,
}
use epoxy.Nextboot.Run.Environ.{execute_in_env-IsSame}

module _ {W : Type 0} (m : Machine W) (env kargs : Dict Str) (environ : IsEnviron env) where
  remove_named-Kept :
      (fname : Option Str) (s : Client W) → Kept env kargs s → Kept env kargs (remove_named fname s)
  unfolding remove_file
  remove_named-Kept none s h = h
  remove_named-Kept (some f) s h = h

  cleanup_specs-Kept :
      (files : Dict (Dict Str)) (s : Client W)
      → Kept env kargs s
      → Kept env kargs (cleanup_specs files s)
  unfolding cleanup_specs ascii
  cleanup_specs-Kept [] s h = h
  cleanup_specs-Kept ((_, spec) ∷ rest) s h =
      cleanup_specs-Kept rest _ (remove_named-Kept (lookup (ascii "name") spec) s h)

  cleanup_v1-Kept :
      (v1 : Option V1) (s : Client W) → Kept env kargs s → Kept env kargs (cleanup_v1 v1 s)
  cleanup_v1-Kept none s h = h
  cleanup_v1-Kept (some v1) s h = cleanup_specs-Kept v1.files s h

  cleanup_files-Kept : (s : Client W) → Kept env kargs s → Kept env kargs (cleanup_files s)
  unfolding cleanup_files
  cleanup_files-Kept s h = cleanup_v1-Kept s.config.v1 s h

  execute_in_env-Keeps :
      (dryrun : Bool) (v1 : V1)
      → HasDistinctKeys v1.env
      → Keeps (Kept env kargs) (execute_in_env m dryrun v1)
  execute_in_env-Keeps dryrun v1 d = record {
    at = λ s h.
        let same = execute_in_env-IsSame m dryrun v1 s (λ k v l. environ k v (sym (h.0 k) ∙ l)) d in
        (λ k. same.1 k ∙ h.0 k, λ k v l. rw same.0 (h.1 k v l), rw same.0 h.2);
  }

  run_commands-Keeps : (dryrun : Bool) → Keeps (Kept env kargs) (run_commands m dryrun)
  unfolding run_commands evaluate_and_execute
  run_commands-Keeps dryrun = Keeps-bind _ _ (evaluate_vars-Keeps m env kargs) (λ _.
      finally-Keeps env kargs _ cleanup_files cleanup_files-Kept (
        Keeps-bind _ _ (evaluate_and_download_files-Keeps m env kargs dryrun) (λ _.
          Keeps-bind _ _ (evaluate_env-Keeps m env kargs) (λ _.
            Keeps-bind _ _ (evaluate_commands-Keeps m env kargs)
              (λ _. with_v1-Keeps m env kargs _ (execute_in_env-Keeps dryrun))))))

  pub run-Keeps :
      (fuel : ℕ) (action : Str) (add_kargs dryrun : Bool)
      → DecodesMaps m
      → Keeps (Kept env kargs) (run m fuel action add_kargs dryrun)
  unfolding run
  run-Keeps fuel action add_kargs dryrun dm =
      Keeps-bind _ _ (record { at = λ s h. h })
        (λ ks. Keeps-bind _ _ (Keeps-lift _) (λ url.
          Keeps-bind _ _ (load_action-Keeps m env kargs _ _ _ dm) (λ _.
            Keeps-bind _ _ (maybe_load_chain-Keeps m env kargs fuel dm) (λ ended.
              Keeps-if ended _ _
                (λ _. Keeps-bind _ _ (run_commands-Keeps dryrun) (λ _. Keeps-pure _))
                (λ _. Keeps-pure _)))))

module _ {W : Type 0} (m : Machine W) where
  -- A run of an action, whatever is downloaded, whether it ends well or in an error or is a dry run,
  -- for every number of chained configurations: each environment variable has the value it had
  -- before, and each kernel argument that the client had still has its value. The environment is
  -- one that os.Setenv can have made, and in the configurations, the one loaded and those decoded,
  -- no two entries of the environment have the same key.
  pub run_keeps_env_and_kargs :
      (fuel : ℕ) (action : Str) (add_kargs dryrun : Bool) (s : Client W)
      → DecodesMaps m
      → IsEnviron s.env
      → HasMaps s.config.v1
      → IsKept s.env s.config.kargs
          (run m fuel action add_kargs dryrun s).1.config
          (run m fuel action add_kargs dryrun s).1.env
  run_keeps_env_and_kargs fuel action add_kargs dryrun s dm environ maps =
      (run-Keeps m s.env s.config.kargs environ fuel action add_kargs dryrun dm).at s
        (λ k. refl, λ k v l. l, maps)

-- ===== src/Nextboot/Evaluate/Keeps.antt =====
-- nextboot/v1.go: what the evaluations leave as it is.
use epoxy.Base.{Str, Bool, Option, none, some, [], ◌∷◌}
use epoxy.Base.Dict.{Dict, HasDistinctKeys}
use epoxy.Base.Exec.{continue, ◌>>=◌, Keeps, Keeps-pure, Keeps-lift, Keeps-bind, Keeps-if}
use epoxy.Nextboot.Config.{V1}
use epoxy.Nextboot.Client.{Machine, Client, Action, get_v1, deref}
use epoxy.Nextboot.Kept.{HasMaps, Kept, get_v1-Keeps, create_temp-Keeps, on_failure-Keeps}
use epoxy.Nextboot.Load.Keeps.{file_download-Keeps}
use epoxy.Nextboot.Evaluate.{
  evaluate_as_template, with_files, evaluate_vars, evaluate_env, evaluate_commands, put_spec,
  download_file, download_files, evaluate_and_download_files,
}
use epoxy.Nextboot.Evaluate.Keys.{HasDistinctKeys-eval_env}

module _ {W : Type 0} (m : Machine W) (env kargs : Dict Str) where
  -- Code that works on the action, of which it knows that its environment is a map.
  pub with_v1-Keeps :
      {A : Type 0} (f : V1 → Action W A)
      → ((v1 : V1) → HasDistinctKeys v1.env → Keeps (Kept env kargs) (f v1))
      → Keeps (Kept env kargs) (get_v1 >>= f)
  unfolding ◌>>=◌ get_v1
  with_v1-Keeps f k = record { at = λ s h. go s s.config.v1 h h.2 }
    where
      go :
          (s : Client W) (v1 : Option V1)
          → Kept env kargs s
          → HasMaps v1
          → Kept env kargs (continue (deref v1) f s).1
      go s none h d = h
      go s (some v1) h d = (k v1 d).at s h

  pub evaluate_vars-Keeps : Keeps (Kept env kargs) (evaluate_vars m)
  unfolding evaluate_vars
  evaluate_vars-Keeps = with_v1-Keeps _ (λ v1 d. record { at = λ s h. (h.0, h.1, d) })

  pub evaluate_env-Keeps : Keeps (Kept env kargs) (evaluate_env m)
  unfolding evaluate_env
  evaluate_env-Keeps = with_v1-Keeps _ (λ v1 d. record {
    at = λ s h. (
      h.0,
      h.1,
      HasDistinctKeys-eval_env (evaluate_as_template m s.config v1 with_files) v1.env d,
    );
  })

  pub evaluate_commands-Keeps : Keeps (Kept env kargs) (evaluate_commands m)
  unfolding evaluate_commands
  evaluate_commands-Keeps = with_v1-Keeps _ (λ v1 d.
      Keeps-bind _ _ (record { at = λ s h. (h.0, h.1, d) })
        (λ _. with_v1-Keeps _ (λ v1' d'. record { at = λ s h. (h.0, h.1, d') })))

  put_spec-Keeps : (name : Str) (spec : Dict Str) → Keeps (Kept env kargs) (put_spec m name spec)
  put_spec-Keeps name spec = with_v1-Keeps _ (λ v1 d. record { at = λ s h. (h.0, h.1, d) })

  download_file-Keeps :
      (dryrun : Bool) (name : Str) (spec : Dict Str)
      → Keeps (Kept env kargs) (download_file m dryrun name spec)
  unfolding download_file
  download_file-Keeps dryrun name spec = Keeps-bind _ _ (Keeps-lift _) (λ template.
      Keeps-bind _ _ (get_v1-Keeps env kargs) (λ v1.
        Keeps-bind _ _ (record { at = λ s h. h })
          (λ url. Keeps-bind _ _ (put_spec-Keeps _ _) (λ _.
            Keeps-bind _ _ (create_temp-Keeps env kargs m _) (λ tmpfile.
              Keeps-bind _ _
                (Keeps-if dryrun _ _ (λ _. Keeps-pure _)
                  (λ _. on_failure-Keeps env kargs _ _ (file_download-Keeps m env kargs _ _ _)))
                (λ _. put_spec-Keeps _ _))))))

  download_files-Keeps :
      (dryrun : Bool) (files : Dict (Dict Str))
      → Keeps (Kept env kargs) (download_files m dryrun files)
  unfolding download_files
  download_files-Keeps dryrun [] = Keeps-pure tt
  download_files-Keeps dryrun ((name, spec) ∷ rest) =
      Keeps-bind _ _ (download_file-Keeps dryrun name spec) (λ _. download_files-Keeps dryrun rest)

  pub evaluate_and_download_files-Keeps :
      (dryrun : Bool) → Keeps (Kept env kargs) (evaluate_and_download_files m dryrun)
  unfolding evaluate_and_download_files
  evaluate_and_download_files-Keeps dryrun =
      Keeps-bind _ _ (get_v1-Keeps env kargs) (λ v1. download_files-Keeps dryrun v1.files)

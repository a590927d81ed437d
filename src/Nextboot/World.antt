-- ===== src/Nextboot/World.antt =====
-- nextboot/v1.go: loading and evaluation act on the world by the operations of `Machine` alone.
pub mod Runs
use epoxy.Base.{
  ℕ, zero, suc, Str, Bool, Option, none, some, List, [], ◌∷◌, ascii, ◌==◌, not, ◌||◌, leb, Error,
  Outcome, ok, err,
}
use epoxy.Base.Dict.{Dict, lookup}
use epoxy.Base.Exec.{
  Exec, finally, on_err, on_failure, Keeps, Keeps-pure, Keeps-stop, Keeps-lift, Keeps-bind,
  Keeps-if,
}
use epoxy.Go.Strings.{has_prefix}
use epoxy.Nextboot.Config.{Config, V1, Value}
use epoxy.Nextboot.Values.{interface_to_string_array}
use epoxy.Nextboot.Client.{Machine, Client, Action, remove_file, on_world, create_temp, get_v1}
use epoxy.Nextboot.Load.{
  adopt, put_config, remove_body, post_download, file_download, get_download, fetch, apply_body,
  load_action, maybe_load_chain,
}
use epoxy.Nextboot.Evaluate.{
  evaluate_vars, evaluate_env, evaluate_commands, put_spec, download_file, download_files,
  evaluate_and_download_files,
}

-- No operation of the machine makes `P` false of the world.
pub record IsStable {W : Type 0} (P : W → Type 0) (m : Machine W) : Type 0 where
  pub open_file : (name : Str) → Keeps P (m.open_file name)
  pub read_file : (name : Str) → Keeps P (m.read_file name)
  pub temp_file : (pattern : Str) → Keeps P (m.temp_file pattern)
  pub post : (url : Str) (form : Dict (List Str)) → Keeps P (m.post url form)
  pub grab : (dest source : Str) (sum : Option Str) → Keeps P (m.grab dest source sum)
  pub run_command :
      (args : List Str) (env : Dict Str) (files : List Str) (w : W)
      → P w
      → P (m.run_command args env files w).2

module _ {W : Type 0} {P : W → Type 0} (m : Machine W) (stable : IsStable P m) where
  abbrev pub InWorld : Client W → Type 0
  InWorld s = P s.world

  pub on_world-Keeps : {A : Type 0} (a : Exec W Error A) → Keeps P a → Keeps InWorld (on_world a)
  unfolding on_world
  on_world-Keeps a k = record { at = λ s h. k.at s.world h }

  create_temp-Keeps : (pattern : Str) → Keeps InWorld (create_temp m pattern)
  unfolding create_temp
  create_temp-Keeps pattern = record { at = λ s h. (stable.temp_file pattern).at s.world h }

  pub get_v1-Keeps : Keeps InWorld get_v1
  unfolding get_v1
  get_v1-Keeps = record { at = λ s h. h }

  on_err-InWorld :
      {A : Type 0} (r : Outcome Error A) (name : Str) (s : Client W)
      → InWorld s
      → InWorld (on_err r (remove_file name) s)
  unfolding remove_file
  on_err-InWorld (ok a) name s h = h
  on_err-InWorld (err e) name s h = h

  on_failure-Keeps :
      {A : Type 0} (a : Action W A) (name : Str)
      → Keeps InWorld a
      → Keeps InWorld (on_failure a (remove_file name))
  on_failure-Keeps a name k = record {
    at = λ s h. let (r, s') = a s in on_err-InWorld r name s' (k.at s h);
  }

  pub finally-Keeps :
      {A : Type 0} (a : Action W A) (f : Client W → Client W)
      → ((s : Client W) → InWorld s → InWorld (f s))
      → Keeps InWorld a
      → Keeps InWorld (finally a f)
  finally-Keeps a f g k = record { at = λ s h. let (r, s') = a s in g s' (k.at s h) }

  pub post_download-Keeps :
      (source : Str) (values : Dict (List Str)) → Keeps InWorld (post_download m source values)
  unfolding post_download
  post_download-Keeps source values =
      Keeps-bind _ _ (on_world-Keeps _ (stable.post source values)) λ resp.
        Keeps-if (not (leb 200 resp.status_code) || leb 300 resp.status_code) _ _
          (λ _. Keeps-stop _) (λ _. Keeps-pure _)

  file_download-Keeps :
      (dest source : Str) (urlspec : Dict Str) → Keeps InWorld (file_download m dest source urlspec)
  unfolding file_download
  file_download-Keeps dest source urlspec =
      Keeps-bind _ _ (Keeps-lift _)
        λ _. Keeps-bind _ _ (Keeps-lift _) λ sum. on_world-Keeps _ (stable.grab dest source sum)

  get_download-Keeps : (source : Str) → Keeps InWorld (get_download m source)
  unfolding get_download
  get_download-Keeps source =
      Keeps-bind _ _ (create_temp-Keeps _) λ tmpfile.
        Keeps-bind _ _ (on_failure-Keeps _ _ (file_download-Keeps _ _ _)) λ _. Keeps-pure _

  fetch-Keeps : (source method : Str) → Keeps InWorld (fetch m source method)
  unfolding fetch
  fetch-Keeps source method =
      Keeps-if (has_prefix source (ascii "file://")) _ _
        (λ _. Keeps-bind _ _ (on_world-Keeps _ (stable.open_file _)) (λ _. Keeps-pure _))
        (λ _.
          Keeps-if (method == ascii "POST") _ _
            (λ _. Keeps-bind _ _ (post_download-Keeps _ _) (λ _. Keeps-pure _))
            (λ _.
              Keeps-if (method == ascii "GET") _ _
                (λ _. Keeps-bind _ _ (get_download-Keeps _) (λ file.
                  Keeps-bind _ _ (on_failure-Keeps _ _ (on_world-Keeps _ (stable.read_file file)))
                    (λ _. Keeps-pure _)))
                (λ _. Keeps-stop _)))

  remove_body-InWorld :
      (file : Option Str) (s : Client W) → InWorld s → InWorld (remove_body file s)
  unfolding remove_file
  remove_body-InWorld none s h = h
  remove_body-InWorld (some name) s h = h

  put_config-InWorld :
      (r : Outcome Error Config) (s : Client W) → InWorld s → InWorld (put_config r s).1
  put_config-InWorld (ok c) s h = h
  put_config-InWorld (err e) s h = h

  apply_body-Keeps : (body : Str) (add_kargs : Bool) → Keeps InWorld (apply_body m body add_kargs)
  unfolding apply_body
  apply_body-Keeps body add_kargs =
      Keeps-bind _ _ (Keeps-lift _)
        λ n. record { at = λ s h. put_config-InWorld (adopt add_kargs n s.config) s h }

  pub load_action-Keeps :
      (source method : Str) (add_kargs : Bool)
      → Keeps InWorld (load_action m source method add_kargs)
  unfolding load_action
  load_action-Keeps source method add_kargs = Keeps-bind _ _ (fetch-Keeps source method) λ body.
      finally-Keeps _ (remove_body body.1) (remove_body-InWorld body.1) (apply_body-Keeps _ _)

  pub maybe_load_chain-Keeps : (fuel : ℕ) → Keeps InWorld (maybe_load_chain m fuel)
  unfolding maybe_load_chain
  maybe_load_chain-Keeps zero = Keeps-pure _
  maybe_load_chain-Keeps (suc fuel) = Keeps-bind _ _ get_v1-Keeps λ v1.
      Keeps-if (v1.chain == []) _ _ (λ _. Keeps-pure _)
        (λ _. Keeps-bind _ _ (load_action-Keeps _ _ _) (λ _. maybe_load_chain-Keeps fuel))

  -- Steps that only change the configuration.
  put_spec-Keeps : (name : Str) (spec : Dict Str) → Keeps InWorld (put_spec m name spec)
  put_spec-Keeps name spec = Keeps-bind _ _ get_v1-Keeps λ v1. record { at = λ s h. h }

  pub evaluate_vars-Keeps : Keeps InWorld (evaluate_vars m)
  unfolding evaluate_vars
  evaluate_vars-Keeps = Keeps-bind _ _ get_v1-Keeps λ v1. record { at = λ s h. h }

  pub evaluate_env-Keeps : Keeps InWorld (evaluate_env m)
  unfolding evaluate_env
  evaluate_env-Keeps = Keeps-bind _ _ get_v1-Keeps λ v1. record { at = λ s h. h }

  pub evaluate_commands-Keeps : Keeps InWorld (evaluate_commands m)
  unfolding evaluate_commands
  evaluate_commands-Keeps = Keeps-bind _ _ get_v1-Keeps λ v1.
      Keeps-bind _ _ (record { at = λ s h. h })
        λ _. Keeps-bind _ _ get_v1-Keeps λ v1'. record { at = λ s h. h }

  download_file-Keeps :
      (dryrun : Bool) (name : Str) (spec : Dict Str)
      → Keeps InWorld (download_file m dryrun name spec)
  unfolding download_file
  download_file-Keeps dryrun name spec = Keeps-bind _ _ (Keeps-lift _) λ template.
      Keeps-bind _ _ get_v1-Keeps λ v1.
        Keeps-bind _ _ (record { at = λ s h. h })
          λ url. Keeps-bind _ _ (put_spec-Keeps _ _) λ _.
            Keeps-bind _ _ (create_temp-Keeps _) λ tmpfile.
              Keeps-bind _ _
                (Keeps-if dryrun _ _ (λ _. Keeps-pure _)
                  (λ _. on_failure-Keeps _ _ (file_download-Keeps _ _ _)))
                λ _. put_spec-Keeps _ _

  download_files-Keeps :
      (dryrun : Bool) (files : Dict (Dict Str)) → Keeps InWorld (download_files m dryrun files)
  unfolding download_files
  download_files-Keeps dryrun [] = Keeps-pure tt
  download_files-Keeps dryrun ((name, spec) ∷ rest) =
      Keeps-bind _ _ (download_file-Keeps dryrun name spec) λ _. download_files-Keeps dryrun rest

  pub evaluate_and_download_files-Keeps :
      (dryrun : Bool) → Keeps InWorld (evaluate_and_download_files m dryrun)
  unfolding evaluate_and_download_files
  evaluate_and_download_files-Keeps dryrun =
      Keeps-bind _ _ get_v1-Keeps λ v1. download_files-Keeps dryrun v1.files

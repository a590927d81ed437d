-- ===== src/Nextboot/Evaluate.antt =====
-- nextboot/v1.go: the values of an action are evaluated as templates, in dependency order.
pub mod Keys
pub mod Variables
pub mod Keeps
pub mod Files
pub mod Downloads
use epoxy.Base.{
  ℕ, Str, ascii, Bool, true, false, not, Option, none, some, List, [], ◌∷◌, ◌++◌, Error,
  file_url_not_found, unsupported_type, Outcome, ok, err, Result, if◌then◌else◌,
}
use epoxy.Base.Dict.{Dict, lookup, insert}
use epoxy.Base.Exec.{Exec, pure, stop, lift, on_failure, ◌>>=◌, ◌>>◌}
use epoxy.Go.Strings.{join}
use epoxy.Nextboot.Config.{
  Config, V1, Value, null, bool_true, bool_false, num, str, arr, obj, Items, nil, cons,
}
use epoxy.Nextboot.Values.{sprint, interface_to_string_array, string_to_interface_array}
use epoxy.Nextboot.Client.{Machine, Client, Action, remove_file, create_temp, get_v1, put_v1}
use epoxy.Nextboot.Load.{file_download}

-- A loop that replaces values in place and stops at the first error: the values as they are left,
-- beside the error.
abbrev pub Loop : Type 0 → Type 0
Loop A = Outcome Error (Unit {0}) × A

-- The flags useVars and useFiles.
pub data Scope : Type 0 where
  only_kargs with_vars with_files : Scope

abbrev vars_in : Scope → V1 → Option (Dict Value)
vars_in only_kargs v1 = none
vars_in with_vars v1 = some v1.vars
vars_in with_files v1 = some v1.vars

abbrev files_in : Scope → V1 → Option (Dict (Dict Str))
files_in only_kargs v1 = none
files_in with_vars v1 = none
files_in with_files v1 = some v1.files

-- The text of a variable: a string, or an array joined by spaces.
unfoldable pub var_text : Value → Result Str
var_text (arr xs) = ok (join (interface_to_string_array (arr xs)) (32 ∷ []))
var_text (str s) = ok s
var_text null = err unsupported_type
var_text bool_true = err unsupported_type
var_text bool_false = err unsupported_type
var_text (num _) = err unsupported_type
var_text (obj _) = err unsupported_type

-- The loops, over the evaluation of one template.
module _ (eval : Str → Result Str) where
  next_var : Str → Result Str → Dict Value → Loop (Dict Value) → Loop (Dict Value)
  next_var key (err e) left rest = (err e, left)
  next_var key (ok sval) left rest = let (r, vars) = rest in (r, (key, str sval) ∷ vars)

  eval_var : Str → Value → Result Str → Dict Value → Loop (Dict Value) → Loop (Dict Value)
  unfolding next_var
  eval_var key value (err e) vars rest = (err e, (key, value) ∷ vars)
  eval_var key value (ok text) vars rest = next_var key (eval text) ((key, str text) ∷ vars) rest

  unfoldable pub eval_vars : Dict Value → Loop (Dict Value)
  unfolding eval_var
  eval_vars [] = (ok tt, [])
  eval_vars ((key, value) ∷ vars) = eval_var key value (var_text value) vars (eval_vars vars)

  next_env : Str → Str → Result Str → Dict Str → Loop (Dict Str) → Loop (Dict Str)
  next_env key val (err e) env rest = (err e, (key, val) ∷ env)
  next_env key val (ok s) env rest = let (r, env') = rest in (r, (key, s) ∷ env')

  unfoldable pub eval_env : Dict Str → Loop (Dict Str)
  unfolding next_env
  eval_env [] = (ok tt, [])
  eval_env ((key, val) ∷ env) = next_env key val (eval val) env (eval_env env)

  -- The first pass over the commands: strings are evaluated and split.
  split_command : (Str → Result (List Str)) → Value → Result Value
  split_command split (str tmpl) = elim (eval tmpl) [
    | err e ↦ err e
    | ok cmd ↦ elim (split cmd) [
      | err e ↦ err e
      | ok args ↦ ok (arr (string_to_interface_array args))
    ]
  ]
  split_command split null = ok null
  split_command split bool_true = ok bool_true
  split_command split bool_false = ok bool_false
  split_command split (num t) = ok (num t)
  split_command split (arr xs) = ok (arr xs)
  split_command split (obj fs) = ok (obj fs)

  next_command : Value → Result Value → List Value → Loop (List Value) → Loop (List Value)
  next_command value (err e) values rest = (err e, value ∷ values)
  next_command value (ok value') values rest = let (r, values') = rest in (r, value' ∷ values')

  unfoldable pub split_commands : (Str → Result (List Str)) → List Value → Loop (List Value)
  unfolding split_command next_command
  split_commands split [] = (ok tt, [])
  split_commands split (value ∷ values) =
      next_command value (split_command split value) values (split_commands split values)

  -- The second pass: every argument of every array is evaluated.
  next_arg : Value → Result Str → Items → Loop Items → Loop Items
  next_arg x (err e) xs rest = (err e, cons x xs)
  next_arg x (ok arg) xs rest = let (r, xs') = rest in (r, cons (str arg) xs')

  unfoldable pub eval_args : Items → Loop Items
  unfolding next_arg
  eval_args nil = (ok tt, nil)
  eval_args (cons x xs) = next_arg x (eval (sprint x)) xs (eval_args xs)

  eval_command : Value → Loop Value
  eval_command (arr xs) = let (r, xs') = eval_args xs in (r, arr xs')
  eval_command null = (ok tt, null)
  eval_command bool_true = (ok tt, bool_true)
  eval_command bool_false = (ok tt, bool_false)
  eval_command (num t) = (ok tt, num t)
  eval_command (str s) = (ok tt, str s)
  eval_command (obj fs) = (ok tt, obj fs)

  then_commands : Loop Value → List Value → Loop (List Value) → Loop (List Value)
  then_commands (err e, value) values rest = (err e, value ∷ values)
  then_commands (ok _, value) values rest = let (r, values') = rest in (r, value ∷ values')

  unfoldable pub eval_commands : List Value → Loop (List Value)
  unfolding eval_command eval_args then_commands
  eval_commands [] = (ok tt, [])
  eval_commands (value ∷ values) = then_commands (eval_command value) values (eval_commands values)

module _ {W : Type 0} (m : Machine W) where
  unfoldable pub evaluate_as_template : Config → V1 → Scope → Str → Result Str
  evaluate_as_template c v1 scope value =
      m.template value c.kargs (vars_in scope v1) (files_in scope v1)

  -- Writes back what a loop has left, and ends as it ended.
  abbrev pub written : {A : Type 0} → (A → V1) → Loop A → Action W (Unit {0})
  written put (r, a) s = (r, put_v1 (put a) s)

  unfoldable pub evaluate_vars : Action W (Unit {0})
  evaluate_vars = do
    v1 ← get_v1
    λ s.
        written (λ vars. record v1 { vars = vars })
          (eval_vars (evaluate_as_template s.config v1 only_kargs) v1.vars) s

  unfoldable pub evaluate_env : Action W (Unit {0})
  evaluate_env = do
    v1 ← get_v1
    λ s.
        written (λ env. record v1 { env = env })
          (eval_env (evaluate_as_template s.config v1 with_files) v1.env) s

  unfoldable pub evaluate_commands : Action W (Unit {0})
  evaluate_commands = do
    v1 ← get_v1
    λ s.
        written (λ commands. record v1 { commands = commands })
          (split_commands (evaluate_as_template s.config v1 with_files) m.shlex_split v1.commands) s
    v1' ← get_v1
    λ s.
        written (λ commands. record v1' { commands = commands })
          (eval_commands (evaluate_as_template s.config v1' with_files) v1'.commands) s

  abbrev pub url_of : Option Str → Result Str
  url_of none = err file_url_not_found
  url_of (some url) = ok url

  -- c.V1.Files[name] = spec
  abbrev pub put_spec : Str → Dict Str → Action W (Unit {0})
  put_spec name spec = do
    v1 ← get_v1
    λ s. (ok tt, put_v1 (record v1 { files = insert name spec v1.files }) s)

  -- One round of evaluateAndDownloadFiles.
  unfoldable pub download_file : Bool → Str → Dict Str → Action W (Unit {0})
  unfolding ascii
  download_file dryrun name spec = do
    template ← lift (url_of (lookup (ascii "url") spec))
    v1 ← get_v1
    url ← λ s. (evaluate_as_template s.config v1 with_vars template, s)
    let spec' = insert (ascii "url") url spec
    put_spec name spec'
    tmpfile ← create_temp m (name ++ b'-' ∷ [])
    if dryrun then pure tt else on_failure (file_download m tmpfile url spec') (remove_file tmpfile)
    put_spec name (insert (ascii "name") tmpfile spec')

  unfoldable pub download_files : Bool → Dict (Dict Str) → Action W (Unit {0})
  download_files dryrun [] = pure tt
  download_files dryrun ((name, spec) ∷ rest) = do
    download_file dryrun name spec
    download_files dryrun rest

  unfoldable pub evaluate_and_download_files : Bool → Action W (Unit {0})
  evaluate_and_download_files dryrun = do v1 ← get_v1; download_files dryrun v1.files

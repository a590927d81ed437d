-- ===== src/Tests/Client.antt =====
-- A client that loads an action from a server, follows its chain and runs its commands.
use epoxy.Base.{
  All, Str, ascii, ◌==◌, ◌≡◌, refl, true, false, not, ◌&&◌, some, [], ◌∷◌, ok, arith, if◌then◌else◌,
  eq_iff,
}
use epoxy.Base.Dict.{Dict, lookup, found, HasDistinctKeys}
use epoxy.Base.Exec.{◌>>=◌}
use epoxy.Nextboot.Config.{str, arr, nil, cons, Config, V1}
use epoxy.Nextboot.Client.{Machine, Client, on_world}
use epoxy.Nextboot.Cmdline.{parse_cmdline}
use epoxy.Nextboot.Cmdline.RoundTrip.{IsParam, print_cmdline, assign_all, parse_cmdline-print}
use epoxy.Nextboot.Kept.{HasMaps, DecodesMaps, IsKept}
use epoxy.Nextboot.Load.{merge_kargs, load_action, maybe_load_chain, fetch, apply_body, adopt}
use epoxy.Nextboot.Environment.{update_current_env, is_settable}
use epoxy.Nextboot.Environment.Restore.{IsEnviron, update_current_env_restore}
use epoxy.Nextboot.Evaluate.{eval_vars, var_text}
use epoxy.Nextboot.Evaluate.Variables.{AreEvaluated, eval_vars-AreEvaluated}
use epoxy.Nextboot.Run.{cleanup_files, execute_in_env, run}
use epoxy.Nextboot.Run.Keeps.{run_keeps_env_and_kargs}

abbrev pub path_env : Dict Str
path_env = (ascii "PATH", ascii "/bin") ∷ (ascii "HOME", ascii "/") ∷ []

abbrev pub final_v1 : V1
final_v1 = record {
  chain = [];
  vars = (ascii "kernel", str (ascii "vmlinuz")) ∷ [];
  files =
      (
        ascii "image",
        (ascii "url", ascii "http://server/image") ∷ (ascii "name", ascii "/tmp/image") ∷ [],
      )
      ∷ [];
  env = (ascii "PATH", ascii "/usr/bin") ∷ (ascii "NEW", ascii "1") ∷ [];
  commands = arr (cons (str (ascii "kexec")) nil) ∷ [];
}

abbrev final : Config
final = record {
  kargs = (ascii "epoxy.stage3", ascii "other") ∷ (ascii "a", ascii "b") ∷ [];
  v1 = some final_v1;
}

abbrev pub chained_v1 : V1
chained_v1 = record final_v1 { chain = ascii "file:///final" }

abbrev chained : Config
chained = record final { v1 = some chained_v1 }

-- Every download is `final`, except the one that is posted for.
abbrev pub decode_text : Str → Config
decode_text [] = final
decode_text (_ ∷ _) = chained

abbrev pub machine : Machine (Unit {0})
machine = record {
  template = λ text kargs vars files. ok text;
  shlex_split = λ text. ok (text ∷ []);
  decode = λ body. ok (some (decode_text body));
  config_string = λ c. [];
  open_file = λ name w. (ok [], w);
  read_file = λ name w. (ok [], w);
  temp_file = λ pattern w. (ok (ascii "/tmp/1"), w);
  post = λ url values w. (ok (record { status_code = 200; body = ascii "x" }), w);
  new_grab_request = λ dest source. ok tt;
  grab = λ dest source sum w. (ok tt, w);
  run_command = λ args env files w. (ok tt, files, w);
}

pub final_env-HasDistinctKeys : HasDistinctKeys final_v1.env
unfolding lookup ascii ◌==◌
final_env-HasDistinctKeys = (refl, (refl, tt))

decoded-HasMaps : (body : Str) → HasMaps (decode_text body).v1
decoded-HasMaps [] = final_env-HasDistinctKeys
decoded-HasMaps (b ∷ body) = final_env-HasDistinctKeys

pub machine-DecodesMaps : DecodesMaps machine
machine-DecodesMaps body n e =
    let same : decode_text body ≡ n = cc e in rw (← same) (decoded-HasMaps body)

pub path_env-IsEnviron : IsEnviron path_env
unfolding lookup ascii ◌==◌ is_settable
path_env-IsEnviron k v e = ground (arith, eq_iff (ascii "PATH") k, eq_iff (ascii "HOME") k)

abbrev pub client : Client (Unit {0})
client = record {
  config = record {
    kargs = (ascii "epoxy.stage3", ascii "http://server/stage3") ∷ [];
    v1 = some chained_v1;
  };
  env = path_env;
  files = ascii "/tmp/image" ∷ ascii "/etc/hosts" ∷ [];
  world = tt;
}

run_keeps_env_and_kargs_example :
    IsKept path_env client.config.kargs
      (run machine 3 (ascii "epoxy.stage3") true false client).1.config
      (run machine 3 (ascii "epoxy.stage3") true false client).1.env
run_keeps_env_and_kargs_example =
    run_keeps_env_and_kargs machine 3 (ascii "epoxy.stage3") true false client machine-DecodesMaps
      path_env-IsEnviron final_env-HasDistinctKeys

update_current_env_restore_example :
    lookup
      (ascii "PATH")
      (update_current_env
        (update_current_env final_v1.env [] path_env).0
        (update_current_env final_v1.env [] path_env).1
        (update_current_env final_v1.env [] path_env).2).2
    ≡ lookup (ascii "PATH") path_env
update_current_env_restore_example =
    update_current_env_restore final_v1.env path_env path_env-IsEnviron final_env-HasDistinctKeys
      (ascii "PATH")

eval_vars-AreEvaluated_example :
    AreEvaluated (λ text. ok text) final_v1.vars (eval_vars (λ text. ok text) final_v1.vars).1
unfolding eval_vars var_text
eval_vars-AreEvaluated_example = eval_vars-AreEvaluated (λ text. ok text) final_v1.vars refl

abbrev later_params : Dict Str
later_params = (ascii "epoxy.stage2", ascii "http://server/s?a=b") ∷ (ascii "net", []) ∷ []

params-IsParam : All IsParam ((ascii "root", ascii "/dev/ram0") ∷ later_params)
unfolding ascii
params-IsParam = ground arith

parse_cmdline-print_example :
    parse_cmdline (print_cmdline ((ascii "root", ascii "/dev/ram0") ∷ later_params)) final
    ≡ record final { kargs = assign_all ((ascii "root", ascii "/dev/ram0") ∷ later_params) [] }
parse_cmdline-print_example =
    parse_cmdline-print (ascii "root") (ascii "/dev/ram0") later_params final params-IsParam

-- The run above ends well, with the chain followed and the commands run.
runs : Unit {0}
unfolding run ◌>>=◌ lookup ◌==◌ load_action fetch epoxy.Go.Strings.has_prefix
    epoxy.Nextboot.Load.post_download on_world apply_body adopt maybe_load_chain
    epoxy.Nextboot.Client.get_v1 epoxy.Nextboot.Run.run_commands
    epoxy.Nextboot.Evaluate.evaluate_vars eval_vars var_text
    epoxy.Nextboot.Evaluate.evaluate_as_template epoxy.Base.Dict.insert ascii epoxy.Go.Strings.drop
    epoxy.Go.Strings.join epoxy.Nextboot.Client.create_temp epoxy.Nextboot.Client.delete
    epoxy.Nextboot.Client.remove_file epoxy.Nextboot.Environment.set_all
    epoxy.Nextboot.Environment.setenv epoxy.Nextboot.Environment.unset_all update_current_env
    epoxy.Nextboot.Evaluate.download_file epoxy.Nextboot.Evaluate.download_files
    epoxy.Nextboot.Evaluate.eval_args epoxy.Nextboot.Evaluate.eval_commands
    epoxy.Nextboot.Evaluate.eval_env epoxy.Nextboot.Evaluate.evaluate_and_download_files
    epoxy.Nextboot.Evaluate.evaluate_commands epoxy.Nextboot.Evaluate.evaluate_env
    epoxy.Nextboot.Evaluate.split_commands epoxy.Nextboot.Load.file_download
    epoxy.Nextboot.Load.get_download merge_kargs cleanup_files epoxy.Nextboot.Run.cleanup_specs
    epoxy.Nextboot.Run.evaluate_and_execute epoxy.Nextboot.Run.execute execute_in_env
    epoxy.Nextboot.Run.run_command epoxy.Nextboot.Values.interface_to_string_array
    epoxy.Nextboot.Values.sprint epoxy.Nextboot.Values.sprint_items
    epoxy.Nextboot.Values.string_to_interface_array epoxy.Base.Dict.remove
runs = tt

pub run_tests : (run machine 3 (ascii "epoxy.stage3") true false client).0 ≡ ok true
unfolding runs is_settable
run_tests = refl

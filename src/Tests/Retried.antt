-- ===== src/Tests/Retried.antt =====
-- The command epoxy_client around the client of Tests/Client.
use epoxy.Base.{
  ℕ, ◌+◌, ◌<◌, Bool, Bool-cases, inl, inr, ◌==◌, ascii, true, false, Str, some, if◌then◌else◌, ◌≡◌,
  none, [], Error, external, ok, err, arith,
}
use epoxy.Base.Exec.{Exec, ◌>>=◌}
use epoxy.Nextboot.Client.{Machine, Client, on_world, create_temp}
use epoxy.Nextboot.Kept.{IsKept}
use epoxy.Nextboot.Retry.{Flags, Clock, timeout, WriteFile, retry_rounds, main}
use epoxy.Nextboot.Run.{report}
use epoxy.Nextboot.Load.{
  load_action, fetch, apply_body, adopt, post_download, get_download, file_download,
}
use epoxy.Go.Strings.{has_prefix}
use epoxy.Base.Dict.{lookup}
use epoxy.Nextboot.Retry.Ends.{minute, TimePasses, IsEnd, main_ends}
use epoxy.Nextboot.Load.Chains.{IsAcyclic}
use epoxy.Nextboot.Config.{Config, V1}
use epoxy.Nextboot.Retry.Laws.{client_keeps_env_and_kargs}
use epoxy.Tests.Client.{
  final_v1, path_env, machine, client, machine-DecodesMaps, path_env-IsEnviron,
  final_env-HasDistinctKeys,
}

abbrev flags : Flags
flags = record {
  cmdline = ascii "/proc/cmdline";
  action = ascii "epoxy.stage3";
  add_kargs = true;
  report = ascii "epoxy.report";
  dryrun = false;
  retry = true;
}

abbrev clock : Clock (Unit {0})
clock = record { error_text = λ e. ascii "failed"; now = λ w. (0, w); sleep = λ w. w }

client_keeps_env_and_kargs_example :
    IsKept path_env client.config.kargs
      (retry_rounds machine clock flags 3 2 timeout client).1.config
      (retry_rounds machine clock flags 3 2 timeout client).1.env
client_keeps_env_and_kargs_example =
    client_keeps_env_and_kargs machine clock flags 3 2 timeout client machine-DecodesMaps
      path_env-IsEnviron final_env-HasDistinctKeys

-- A machine whose world is the time, and whose server is not there.
abbrev idle : {A : Type 0} → A → Exec ℕ Error A
idle a w = (ok a, w)

abbrev offline : Machine ℕ
offline = record {
  template = λ text kargs vars files. ok text;
  shlex_split = λ text. ok [];
  decode = λ body. ok none;
  config_string = λ c. [];
  open_file = λ name. idle [];
  read_file = λ name. idle (ascii "epoxy.stage3=http://server/3 epoxy.report=http://server/r");
  temp_file = λ pattern. idle (ascii "/tmp/1");
  post = λ url values w. (err (external []), w + 1);
  new_grab_request = λ dest source. ok tt;
  grab = λ dest source sum. idle tt;
  run_command = λ args env files w. (ok tt, files, w);
}

abbrev ticking : Clock ℕ
ticking = record { error_text = λ e. ascii "failed"; now = λ w. (w, w); sleep = λ w. w + minute }

abbrev begun : Client ℕ
begun = record { config = record { kargs = []; v1 = none }; env = []; files = []; world = 5 }

abbrev write : WriteFile ℕ
write name contents = idle tt

-- A server that answers a POST with a configuration that names the next, in a file; a GET fails.
abbrev first_config : Config
first_config = record { kargs = []; v1 = some (record final_v1 { chain = ascii "file:///next" }) }

abbrev last_config : Config
last_config = record { kargs = []; v1 = some final_v1 }

abbrev serving : Machine ℕ
serving = record offline {
  decode = λ body. if body == ascii "first" then ok (some first_config) else ok (some last_config);
  open_file = λ name. idle (ascii "last");
  post = λ url values w. (ok (record { status_code = 200; body = ascii "first" }), w + 1);
  grab = λ dest source sum w. (err (external []), w);
}

abbrev depth : Str → ℕ
depth url = if has_prefix url (ascii "file://") then 0 else 1

serving-descends :
    (url method : Str) (add_kargs : Bool) (s : Client ℕ) (v1 : V1)
    → (load_action serving url method add_kargs s).0 ≡ ok tt
    → (load_action serving url method add_kargs s).1.config.v1 ≡ some v1
    → (v1.chain == []) ≡ false
    → depth v1.chain < depth url
unfolding load_action fetch apply_body adopt on_world post_download get_download file_download
    create_temp ◌>>=◌ ascii ◌==◌ lookup has_prefix
serving-descends url method add_kargs s v1 done there more =
    elim (Bool-cases (has_prefix url (ascii "file://"))) [
      | inl e ↦
          let there' : some final_v1 ≡ some v1 = rw e at there in
          let same : final_v1 ≡ v1 = cc in
          let more' : (final_v1.chain == []) ≡ false = rw (← same) at more in cc
      | inr e ↦ elim (Bool-cases (method == ascii "POST")) [
        | inl post ↦
            let there' : some (record final_v1 { chain = ascii "file:///next" }) ≡ some v1 =
              rw (e, post) at there in
            let same : record final_v1 { chain = ascii "file:///next" } ≡ v1 = cc in
            rw (← same, e) (omega arith)
        | inr other ↦ elim (Bool-cases (method == ascii "GET")) [
          | inl get ↦ let done' = rw (e, other, get) at done in cc done'
          | inr none_left ↦ let done' = rw (e, other, none_left) at done in cc done'
        ]
      ]
    ]

serving-IsAcyclic : IsAcyclic serving 1
serving-IsAcyclic = record {
  depth = depth;
  bounded = λ url. ground arith;
  descends = serving-descends;
}

serving-TimePasses : TimePasses serving ticking
serving-TimePasses = record {
  at = λ w. w;
  stable = λ t. record {
    open_file = λ name. record { at = λ w h. h };
    read_file = λ name. record { at = λ w h. h };
    temp_file = λ pattern. record { at = λ w h. h };
    post = λ url form. record { at = λ w h. omega arith };
    grab = λ dest source sum. record { at = λ w h. h };
    run_command = λ args env files w h. h;
  };
  read_after = λ w. omega arith;
  read_before = λ w. omega arith;
  slept = λ w. omega arith;
}

main_ends_example : IsEnd (main write serving ticking flags 2 362 begun).0
main_ends_example =
    main_ends serving ticking flags serving-TimePasses write 1 serving-IsAcyclic begun

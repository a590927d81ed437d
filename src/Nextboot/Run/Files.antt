-- ===== src/Nextboot/Run/Files.antt =====
-- nextboot/v1.go: the temporary files of a run.
use epoxy.Base.{
  ℕ, Str, ascii, ◌==◌, ◌≡◌, inl, inr, refl, ◌∙◌, Bool, eq_refl, Bool-cases, true, false, Option,
  none, some, List, [], ◌∷◌, arith,
}
use epoxy.Base.Dict.{Dict, lookup, lookup-cons, lookup-nil, HasDistinctKeys}
use epoxy.Base.Exec.{Keeps, Keeps-pure, Keeps-lift, Keeps-bind, Keeps-if}
use epoxy.Base.Exec.Ensures.{
  Ends, Ensures, Ensures-bind, Ensures-pure, Ensures-Keeps, Keeps-Ensures, Ensures-weaken,
  Ensures-if, Ends-always, Ends-either,
}
use epoxy.Nextboot.Config.{V1, Value}
use epoxy.Nextboot.Values.{interface_to_string_array}
use epoxy.Nextboot.Client.{Machine, Client, Action, get_v1, deref}
use epoxy.Nextboot.Files.{exists, IsAbsent, HasFileMaps}
use epoxy.Nextboot.Load.Files.{DecodesFileMaps, load_action-Keeps, maybe_load_chain-Keeps}
use epoxy.Nextboot.Evaluate.{
  evaluate_vars, evaluate_and_download_files, evaluate_env, evaluate_commands,
}
use epoxy.Nextboot.Evaluate.Files.{IsRecordedIn, IsRecorded, get_v1-Ensures, get_v1-Keeps}
use epoxy.Nextboot.Evaluate.Downloads.{download_files-Ensures}
use epoxy.Nextboot.Run.{
  cleanup_files, run_command, is_empty, execute, execute_in_env, evaluate_and_execute, run_commands,
  run,
}
use epoxy.Nextboot.Run.Cleanup.{is_named, exists-cleanup_files}

-- A command does not make the file.
abbrev pub CommandsSpare : {W : Type 0} → Str → Machine W → Type 0
CommandsSpare {W} f m =
    (args : List Str) (env : Dict Str) (files : List Str) (w : W)
    → exists f files ≡ false
    → exists f (m.run_command args env files w).1 ≡ false

named_entry :
    (f : Str) (files : Dict (Dict Str)) (k : Str) (spec : Dict Str)
    → lookup k files ≡ some spec
    → lookup (ascii "name") spec ≡ some f
    → is_named f files ≡ true
named_entry f [] k spec there named = cc (lookup-nil k)
named_entry f ((j, x) ∷ files) k spec there named = elim (Bool-cases (j == k)) [
  | inl same ↦
      let here' : x ≡ spec = ground (arith, lookup-cons j k x files) in
      let named' : lookup (ascii "name") x ≡ some f = rw here' named in
      rw named' (ground (arith, eq_refl f))
  | inr other ↦
      let rest = named_entry f files k spec (ground (arith, lookup-cons j k x files)) named in
      ground arith
]

module _ {W : Type 0} (m : Machine W) (f : Str) where
  abbrev Recorded : Client W → Type 0
  Recorded s = IsRecorded f [] s

  cleanup_files-IsAbsent : (s : Client W) → Recorded s → exists f (cleanup_files s).files ≡ false
  cleanup_files-IsAbsent s (v1, e, inl absent) = exists-cleanup_files f v1 s e ∙ ground arith
  cleanup_files-IsAbsent s (v1, e, inr entry) =
      let named = named_entry f v1.files entry.key entry.spec entry.there entry.named in
      exists-cleanup_files f v1 s e ∙ ground arith

  evaluate_env-Keeps : Keeps Recorded (evaluate_env m)
  unfolding evaluate_env
  evaluate_env-Keeps = Keeps-Ensures _ (
      Ensures-bind get_v1 _ (get_v1-Ensures m f (IsRecordedIn f []) _)
        λ v1. record { at = λ s (e, h). Ends-always Recorded _ _ (_, refl, h) })

  evaluate_commands-Keeps : Keeps Recorded (evaluate_commands m)
  unfolding evaluate_commands
  evaluate_commands-Keeps = Keeps-Ensures _ (
      Ensures-bind get_v1 _ (get_v1-Ensures m f (IsRecordedIn f []) _) λ v1.
        Ensures-bind {Q = λ _. Recorded} _ _
          (record { at = λ s (e, h). Ends-always Recorded _ _ (_, refl, h) })
          λ _.
            Ensures-bind get_v1 _ (get_v1-Ensures m f (IsRecordedIn f []) _)
              λ v1'. record { at = λ s (e, h). Ends-always Recorded _ _ (_, refl, h) })

  -- The file is not there, and the configuration has an action whose files are a map.
  abbrev IsReady : Client W → Type 0
  IsReady s =
      (v1 : V1) × (s.config.v1 ≡ some v1) × ((exists f s.files ≡ false) × HasDistinctKeys v1.files)

  abbrev Gone : Client W → Type 0
  Gone s = exists f s.files ≡ false

  get_v1-IsReady :
      Ensures
        (IsAbsent f)
        get_v1
        (λ v1 s. (s.config.v1 ≡ some v1) × Gone s × HasDistinctKeys v1.files)
        (λ _. Gone)
  unfolding get_v1
  get_v1-IsReady = record { at = λ s h. go s s.config.v1 refl h.0 h.1 }
    where
      go :
          (s : Client W) (o : Option V1)
          → s.config.v1 ≡ o
          → Gone s
          → HasFileMaps o
          → Ends
              (λ v1 s. (s.config.v1 ≡ some v1) × Gone s × HasDistinctKeys v1.files)
              (λ _. Gone)
              (deref o)
              s
      go s none e gone maps = gone
      go s (some v1) e gone maps = (e, gone, maps)

  evaluate_vars-Ensures : Ensures (IsAbsent f) (evaluate_vars m) (λ _. IsReady) (λ _. Gone)
  unfolding evaluate_vars
  evaluate_vars-Ensures = Ensures-bind get_v1 _ get_v1-IsReady λ v1.
      Ensures-weaken
        (record { at = λ s (e, gone, maps). Ends-always IsReady _ _ (_, refl, (gone, maps)) })
        (λ s h. h) (λ _ s h. h) (λ _ s h. h.2.0)

  downloads-Ensures :
      (dryrun : Bool)
      → Ensures IsReady (evaluate_and_download_files m dryrun) (λ _. Recorded) (λ _. Recorded)
  unfolding evaluate_and_download_files
  downloads-Ensures dryrun =
      Ensures-bind get_v1 _
        (get_v1-Ensures m f (λ v1 files. (exists f files ≡ false) × HasDistinctKeys v1.files) _)
        λ v1. record {
          at = λ s (e, (gone, maps)).
              (download_files-Ensures m f dryrun v1.files maps).at s (v1, e, inl gone);
        }

  module _ (spare : CommandsSpare f m) where
    execute-Keeps :
        (dryrun : Bool) (commands : List Value) → Keeps Recorded (execute m dryrun commands)
    unfolding execute run_command
    execute-Keeps dryrun [] = Keeps-pure tt
    execute-Keeps dryrun (fields ∷ rest) =
        let args = interface_to_string_array fields in
        let later = execute-Keeps dryrun rest in
        Keeps-if (is_empty m args) _ _ (λ _. later)
          λ _.
            Keeps-if dryrun _ _ (λ _. later)
              λ _.
                Keeps-bind _ _ (record { at = λ s (v1, e, h). (v1, e, spared args s v1 h) })
                  λ _. later
      where
        spared :
            (args : List Str) (s : Client W) (v1 : V1)
            → IsRecordedIn f [] v1 s.files
            → IsRecordedIn f [] v1 (m.run_command args s.env s.files s.world).1
        spared args s v1 (inl absent) = inl (spare args s.env s.files s.world absent)
        spared args s v1 (inr entry) = inr entry

    execute_in_env-Keeps : (dryrun : Bool) (v1 : V1) → Keeps Recorded (execute_in_env m dryrun v1)
    unfolding execute_in_env
    execute_in_env-Keeps dryrun v1 = record {
      at = λ s h. (execute-Keeps dryrun v1.commands).at (record s { env = _ }) h;
    }

    evaluate_and_execute-Ensures :
        (dryrun : Bool)
        → Ensures IsReady (evaluate_and_execute m dryrun) (λ _. Recorded) (λ _. Recorded)
    unfolding evaluate_and_execute
    evaluate_and_execute-Ensures dryrun = Ensures-bind _ _ (downloads-Ensures dryrun) λ _.
        Ensures-Keeps _ (
          Keeps-bind _ _ evaluate_env-Keeps λ _. Keeps-bind _ _ evaluate_commands-Keeps λ _.
            Keeps-bind get_v1 _ (get_v1-Keeps m f Recorded) λ v1. execute_in_env-Keeps dryrun v1)

    -- cleanupFiles removes what the downloads have left, however they and the commands end.
    run_commands-Ensures :
        (dryrun : Bool) → Ensures (IsAbsent f) (run_commands m dryrun) (λ _. Gone) (λ _. Gone)
    unfolding run_commands
    run_commands-Ensures dryrun = Ensures-bind _ _ evaluate_vars-Ensures λ _. record {
      at = λ s h.
          let (r, s') = evaluate_and_execute m dryrun s in
          Ends-always Gone r (cleanup_files s') (
            cleanup_files-IsAbsent s'
              (Ends-either Recorded r s' ((evaluate_and_execute-Ensures dryrun).at s h)));
    }

  kept-Ensures :
      {A : Type 0} (a : Action W A)
      → Keeps (IsAbsent f) a
      → Ensures (IsAbsent f) a (λ _. IsAbsent f) (λ _. Gone)
  kept-Ensures a k = Ensures-weaken (Ensures-Keeps a k) (λ s h. h) (λ _ s h. h) (λ _ s h. h.0)

  -- A run, however it ends and for every number of chained configurations, leaves no file that was
  -- not there before, but for those that a command makes. In the configurations, the one loaded and
  -- those decoded, no two entries of the files have the same name.
  pub run_leaves_no_files :
      (fuel : ℕ) (action : Str) (add_kargs dryrun : Bool) (s : Client W)
      → DecodesFileMaps m
      → CommandsSpare f m
      → HasFileMaps s.config.v1
      → exists f s.files ≡ false
      → exists f (run m fuel action add_kargs dryrun s).1.files ≡ false
  unfolding run
  run_leaves_no_files fuel action add_kargs dryrun s decodes spare maps absent =
      let block : Ensures (IsAbsent f) (run m fuel action add_kargs dryrun) (λ _. Gone)
          (λ _. Gone) =
        Ensures-bind {Q = λ _. IsAbsent f} _ _ (kept-Ensures _ (record { at = λ s h. h })) λ kargs.
          Ensures-bind {Q = λ _. IsAbsent f} _ _ (kept-Ensures _ (Keeps-lift _)) λ url.
            Ensures-bind _ _ (kept-Ensures _ (load_action-Keeps m f decodes url _ _)) λ _.
              Ensures-bind _ _ (kept-Ensures _ (maybe_load_chain-Keeps m f decodes fuel)) λ ended.
                Ensures-if ended _ _
                  (λ _.
                    Ensures-bind _ _ (run_commands-Ensures spare dryrun)
                      λ _. Ensures-pure true λ s h. h)
                  (λ _. Ensures-pure false λ s h. h.0) in
      Ends-either Gone _ _ (block.at s (absent, maps))

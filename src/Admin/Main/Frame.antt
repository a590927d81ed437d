-- ===== src/Admin/Main/Frame.antt =====
-- cmd/epoxy_admin: what no command touches.
use epoxy.Base.{
  Str, ◌≡◌, inl, inr, refl, ◌∙◌, Option, none, some, Bool, true, ok, List, Bool-cases, Result,
}
use epoxy.Base.Exec.{lift, Keeps, Keeps-bind, Keeps-bind_returned, Keeps-pure, Keeps-lift}
use epoxy.Storage.Host.{Host}
use epoxy.Storage.Datastore.{Key, list}
use epoxy.Admin.Tools.{Tools, connect}
use epoxy.Admin.Create.Laws.{run_create-Keeps}
use epoxy.Admin.Update.{run_list}
use epoxy.Admin.Update.Records.{run_update_keeps}
use epoxy.Admin.Sync.Frame.{run_sync_keeps}
use epoxy.Admin.Main.{
  Flags, flag_defaults, Command, create_cmd, delete_cmd, list_cmd, sync_cmd, update_cmd, Found,
  run_command, run_found, execute,
}
use epoxy.Admin.Store.{
  IsAdministered, stored_in, connect-IsOurs, connect-keeps, Holds, keeping-Keeps, list-Keeps,
}

-- The command is a creation of the host, or an update whose pattern matches its name.
abbrev pub Names : {W : Type 0} → Tools W → Command → Str → Type 0
Names t (create_cmd f) n = f.hostname ≡ n
Names t delete_cmd n = ¬ Unit
Names t (list_cmd hostname) n = ¬ Unit
Names t (sync_cmd siteinfo) n = ¬ Unit
Names t (update_cmd f) n =
    (matches : Str → Bool) × (t.compile f.hostname ≡ ok matches) × (matches n ≡ true)

module _ {W : Type 0} (entity : W → Key → Option Host) (t : Tools W)
    (laws : IsAdministered entity t) where
  run_list-Keeps :
      (project : Str) (n : Str) (R : Option Host → Type 0) (pattern : Str)
      → Keeps (Holds entity n R) (run_list t project pattern)
  unfolding run_list
  run_list-Keeps project n R pattern =
      Keeps-bind_returned (connect t project) _
        (keeping-Keeps entity n R _ (connect-keeps entity t laws project))
        λ ds w _ made.
          let ours = connect-IsOurs entity t laws project w ds made in
          Keeps-bind (list ds) _ (list-Keeps entity n R ds ours)
            λ hosts. Keeps-bind (lift (t.compile pattern)) _ (Keeps-lift _) λ matches. Keeps-pure _

  module _ (n : Str) (h : Host) (named : h.name ≡ n) where
    abbrev Kept : Option Host → Type 0
    Kept o = o ≡ some h

    run_command-Keeps :
        (project : Str) (c : Command)
        → ¬ Names t c n
        → Keeps (Holds entity n Kept) (run_command t project c)
    unfolding run_command
    run_command-Keeps project (create_cmd f) other =
        Keeps-bind _ _
          (run_create-Keeps entity t laws project n Kept f (λ _ _ same. absurd (other same)))
          λ _. Keeps-pure tt
    run_command-Keeps project delete_cmd other = Keeps-pure tt
    run_command-Keeps project (list_cmd hostname) other =
        Keeps-bind _ _ (run_list-Keeps project n Kept hostname) λ _. Keeps-pure tt
    run_command-Keeps project (sync_cmd siteinfo) other = record {
      at = λ w before. run_sync_keeps entity t laws project w n h before named;
    }
    run_command-Keeps project (update_cmd f) other = record {
      at = λ w before.
          run_update_keeps entity t laws project f w n (λ matches e. elim (Bool-cases (matches n)) [
            | inl hit ↦ absurd (other (matches, e, hit))
            | inr missed ↦ missed
          ])
          ∙ before;
    }

    run_found-Keeps :
        (found : Found)
        → ((project : Str) (c : Command) → found ≡ some (project, c) → ¬ Names t c n)
        → Keeps (Holds entity n Kept) (run_found t found)
    run_found-Keeps none other = Keeps-pure tt
    run_found-Keeps (some (project, c)) other = run_command-Keeps project c (other project c refl)

  -- Whatever the arguments are and however the program ends, a record that was stored under its own
  -- name is left as it was, unless the command is a creation of that host or an update whose pattern
  -- matches its name.
  pub execute_keeps :
      (parse : Flags → List Str → Result Found) (args : List Str) (w : W) (n : Str) (h : Host)
      → stored_in entity w n ≡ some h
      → h.name ≡ n
      → ((project : Str) (c : Command)
          → parse flag_defaults args ≡ ok (some (project, c))
          → ¬ Names t c n)
      → stored_in entity (execute t parse args w).1 n ≡ some h
  unfolding execute
  execute_keeps parse args w n h before named other =
      let block : Keeps (Holds entity n (λ o. o ≡ some h)) (execute t parse args) =
        Keeps-bind_returned (lift (parse flag_defaults args)) _ (Keeps-lift _) λ found _ _ e.
          run_found-Keeps n h named found λ project c chosen. other project c (rw (← chosen) e) in
      block.at w before

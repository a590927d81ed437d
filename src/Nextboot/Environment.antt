-- ===== src/Nextboot/Environment.antt =====
-- nextboot/v1.go: updateCurrentEnv, and package os on environment variables.
pub mod Restore
use epoxy.Base.{
  ℕ, Str, Bool, true, false, not, ◌&&◌, ◌||◌, ◌==◌, Option, none, some, List, [], ◌∷◌, same_byte,
  if◌then◌else◌,
}
use epoxy.Base.Dict.{Dict, lookup, insert, remove}

abbrev holds : ℕ → Str → Bool
holds b [] = false
holds b (c ∷ s) = same_byte c b || holds b s

-- What os.Setenv accepts: a key that is not empty and has no '=' and no NUL, a value with no NUL.
unfoldable pub is_settable : Str → Str → Bool
is_settable key value =
    not (key == []) && not (holds b'=' key) && not (holds 0 key) && not (holds 0 value)

-- os.Setenv, whose error is ignored
unfoldable pub setenv : Str → Str → Dict Str → Dict Str
setenv key value env = if is_settable key value then insert key value env else env

-- `for key := range delenv { os.Unsetenv(key) }`
unfoldable pub unset_all : Dict Str → Dict Str → Dict Str
unset_all [] env = env
unset_all ((key, _) ∷ rest) env = unset_all rest (remove key env)

abbrev note_changed : Str → Option Str → Dict Str → Dict Str
note_changed key none changed = changed
note_changed key (some orig) changed = insert key orig changed

abbrev note_added : Str → Option Str → Dict Str → Dict Str
note_added key none added = insert key [] added
note_added key (some orig) added = added

-- The loop over `setenv`: the variables changed, those added, the environment.
unfoldable pub set_all : Dict Str → Dict Str → Dict Str → Dict Str → Dict Str × Dict Str × Dict Str
set_all [] changed added env = (changed, added, env)
set_all ((key, val) ∷ rest) changed added env =
    let orig = lookup key env in
    set_all rest (note_changed key orig changed) (note_added key orig added) (setenv key val env)

unfoldable pub update_current_env : Dict Str → Dict Str → Dict Str → Dict Str × Dict Str × Dict Str
unfolding set_all
update_current_env set_vars del_vars env = set_all set_vars [] [] (unset_all del_vars env)

-- ===== src/Nextboot/Environment/Restore.antt =====
-- nextboot/v1.go: updateCurrentEnv, called again with its own results.
use epoxy.Base.{
  Str, Bool, true, false, ◌==◌, eq_iff, ◌≡◌, refl, sym, ◌∙◌, Option, none, some, [], ◌∷◌, arith,
  if◌then◌else◌, Option-cases, inl, inr,
}
use epoxy.Base.Dict.{
  Dict, lookup, insert, remove, lookup-insert, lookup-remove, lookup-cons, lookup-nil, found,
  HasDistinctKeys,
}
use epoxy.Nextboot.Environment.{
  is_settable, setenv, unset_all, note_changed, note_added, set_all, update_current_env,
}

-- What os.Setenv can have put into an environment.
abbrev pub IsEnviron : Dict Str → Type 0
IsEnviron env = (k v : Str) → lookup k env ≡ some v → is_settable k v ≡ true

-- The value of a variable after the loop, from the one to be set and the one before.
abbrev after_set : Str → Option Str → Option Str → Option Str
after_set k none old = old
after_set k (some v) old = if is_settable k v then some v else old

abbrev or_else : Option Str → Option Str → Option Str
or_else none b = b
or_else (some a) b = some a

-- The entry of `changed` after the loop, and that of `added`.
abbrev after_changed : Option Str → Option Str → Option Str → Option Str
after_changed none old noted = noted
after_changed (some v) none noted = noted
after_changed (some v) (some orig) noted = some orig

abbrev after_added : Option Str → Option Str → Option Str → Option Str
after_added none old noted = noted
after_added (some v) (some orig) noted = noted
after_added (some v) none noted = some []

lookup-setenv :
    (j k v : Str) (env : Dict Str)
    → lookup k (setenv j v env)
      ≡ (if j == k then after_set j (some v) (lookup k env) else lookup k env)
unfolding setenv
lookup-setenv j k v env = ground (arith, lookup-insert j k v env)

lookup-set_all :
    (vars changed added env : Dict Str) (k : Str)
    → HasDistinctKeys vars
    → lookup k (set_all vars changed added env).2 ≡ after_set k (lookup k vars) (lookup k env)
unfolding set_all
lookup-set_all [] changed added env k d = rw lookup-nil
lookup-set_all ((j, v) ∷ vars) changed added env k (fresh, d) = ground (
  arith,
  lookup-set_all vars (note_changed j (lookup j env) changed) (note_added j (lookup j env) added)
      (setenv j v env) k d,
  lookup-setenv j k v env,
  lookup-cons j k v vars,
  eq_iff j k,
)

lookup-note_changed :
    (j k : Str) (orig : Option Str) (m : Dict Str)
    → lookup k (note_changed j orig m) ≡ (if j == k then or_else orig (lookup k m) else lookup k m)
lookup-note_changed j k none m = ground arith
lookup-note_changed j k (some orig) m = ground (arith, lookup-insert j k orig m)

lookup-changed :
    (vars changed added env : Dict Str) (k : Str)
    → HasDistinctKeys vars
    → lookup k (set_all vars changed added env).0
      ≡ after_changed (lookup k vars) (lookup k env) (lookup k changed)
unfolding set_all
lookup-changed [] changed added env k d = rw lookup-nil
lookup-changed ((j, v) ∷ vars) changed added env k (fresh, d) = ground (
  arith,
  lookup-changed vars (note_changed j (lookup j env) changed) (note_added j (lookup j env) added)
      (setenv j v env) k d,
  lookup-setenv j k v env,
  lookup-cons j k v vars,
  eq_iff j k,
  lookup-note_changed j k (lookup j env) changed,
)

lookup-note_added :
    (j k : Str) (orig : Option Str) (m : Dict Str)
    → lookup k (note_added j orig m)
      ≡ (if j == k then after_added (some []) orig (lookup k m) else lookup k m)
lookup-note_added j k none m = ground (arith, lookup-insert j k [] m)
lookup-note_added j k (some orig) m = ground arith

lookup-added :
    (vars changed added env : Dict Str) (k : Str)
    → HasDistinctKeys vars
    → lookup k (set_all vars changed added env).1
      ≡ after_added (lookup k vars) (lookup k env) (lookup k added)
unfolding set_all
lookup-added [] changed added env k d = rw lookup-nil
lookup-added ((j, v) ∷ vars) changed added env k (fresh, d) = ground (
  arith,
  lookup-added vars (note_changed j (lookup j env) changed) (note_added j (lookup j env) added)
      (setenv j v env) k d,
  lookup-setenv j k v env,
  lookup-cons j k v vars,
  eq_iff j k,
  lookup-note_added j k (lookup j env) added,
)

lookup-unset_all :
    (vars env : Dict Str) (k : Str)
    → lookup k (unset_all vars env) ≡ (if found (lookup k vars) then none else lookup k env)
unfolding unset_all
lookup-unset_all [] env k = rw lookup-nil
lookup-unset_all ((j, v) ∷ vars) env k =
    ground
      (arith, lookup-unset_all vars (remove j env) k, lookup-remove j k env, lookup-cons j k v vars)

-- A property of both branches, each under its test.
HasDistinctKeys-if :
    (b : Bool) (m n : Dict Str)
    → (b ≡ true → HasDistinctKeys m)
    → (b ≡ false → HasDistinctKeys n)
    → HasDistinctKeys (if b then m else n)
HasDistinctKeys-if true m n h h' = h refl
HasDistinctKeys-if false m n h h' = h' refl

HasDistinctKeys-insert :
    (k v : Str) (m : Dict Str) → HasDistinctKeys m → HasDistinctKeys (insert k v m)
unfolding insert
HasDistinctKeys-insert k v [] d = (lookup-nil k, tt)
HasDistinctKeys-insert k v ((j, w) ∷ m) (fresh, d) =
    HasDistinctKeys-if (j == k) _ _ (λ e. (rw (sym ((eq_iff j k).0 e)) fresh, d))
      (λ e. (
        ground (arith, lookup-insert k j v m, eq_iff j k, eq_iff k j),
        HasDistinctKeys-insert k v m d,
      ))

HasDistinctKeys-note :
    (k : Str) (orig : Option Str) (m : Dict Str)
    → HasDistinctKeys m
    → HasDistinctKeys (note_changed k orig m)
HasDistinctKeys-note k none m d = d
HasDistinctKeys-note k (some orig) m d = HasDistinctKeys-insert k orig m d

HasDistinctKeys-changed :
    (vars changed added env : Dict Str)
    → HasDistinctKeys changed
    → HasDistinctKeys (set_all vars changed added env).0
unfolding set_all
HasDistinctKeys-changed [] changed added env d = d
HasDistinctKeys-changed ((j, v) ∷ vars) changed added env d =
    HasDistinctKeys-changed vars (note_changed j (lookup j env) changed)
      (note_added j (lookup j env) added) (setenv j v env)
      (HasDistinctKeys-note j (lookup j env) changed d)

restore_steps :
    (vars env : Dict Str) (k : Str)
    → HasDistinctKeys vars
    → let (changed, added, env') = set_all vars [] [] env in
      lookup k (set_all changed [] [] (unset_all added env')).2
      ≡ after_set k (after_changed (lookup k vars) (lookup k env) none) (
          if found (after_added (lookup k vars) (lookup k env) none)
          then none
          else after_set k (lookup k vars) (lookup k env))
restore_steps vars env k d =
    let (changed, added, env') = set_all vars [] [] env in
    lookup-set_all changed [] [] (unset_all added env') k
      (HasDistinctKeys-changed vars [] [] env tt)
    ∙ simp (
      lookup-unset_all,
      lookup-set_all vars [] [] env k d,
      lookup-changed vars [] [] env k d,
      lookup-added vars [] [] env k d,
      lookup-nil,
    )

-- updateCurrentEnv with the variables of an action, and again with its results: every variable has
-- the value that it had before, or is unset as before. The environment is one that os.Setenv can
-- have made; no variable is to be set twice, as in any map.
pub update_current_env_restore :
    (vars env : Dict Str)
    → IsEnviron env
    → HasDistinctKeys vars
    → (k : Str)
    → lookup k
        (update_current_env
          (update_current_env vars [] env).0
          (update_current_env vars [] env).1
          (update_current_env vars [] env).2).2
      ≡ lookup k env
unfolding update_current_env unset_all
update_current_env_restore vars env environ d k = elim (Option-cases (lookup k env)) [
  | inl e ↦ ground (arith, restore_steps vars env k d, e)
  | inr (v, e) ↦ ground (arith, restore_steps vars env k d, e, environ k v e)
]

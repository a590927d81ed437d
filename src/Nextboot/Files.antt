-- ===== src/Nextboot/Files.antt =====
-- nextboot/v1.go: the files that a client has made and not removed.
use epoxy.Base.{
  Str, Bool, false, not, ◌&&◌, ◌||◌, ◌==◌, eq_iff, ◌≡◌, ◌⊎◌, inl, inr, refl, Option, none, some,
  Bool-cases, List, [], ◌∷◌, arith, Error, Outcome, ok, err,
}
use epoxy.Base.Dict.{HasDistinctKeys}
use epoxy.Nextboot.Config.{V1}
use epoxy.Base.Exec.{Exec, on_err, on_failure, Keeps}
use epoxy.Base.Exec.Ensures.{Ends, Ensures}
use epoxy.Nextboot.Client.{
  Client, Action, Machine, delete, remove_file, create_temp, on_world, made, get_v1,
}

-- Whether a file exists.
abbrev pub exists : Str → List Str → Bool
exists f [] = false
exists f (g ∷ gs) = g == f || exists f gs

pub exists-delete :
    (f g : Str) (files : List Str) → exists f (delete g files) ≡ (exists f files && not (g == f))
unfolding delete
exists-delete f g [] = refl
exists-delete f g (h ∷ files) =
    ground (arith, exists-delete f g files, eq_iff h g, eq_iff h f, eq_iff g f)

pub exists-made :
    (f tmpfile : Str) (files : List Str)
    → exists f files ≡ false
    → (tmpfile ≡ f) ⊎ (exists f (tmpfile ∷ files) ≡ false)
exists-made f tmpfile files absent = elim (Bool-cases (tmpfile == f)) [
  | inl same ↦ inl ((eq_iff tmpfile f).0 same)
  | inr other ↦ inr (ground arith)
]

-- encoding/json decodes an object into a map: no two entries of the files have the same name.
abbrev pub HasFileMaps : Option V1 → Type 0
HasFileMaps none = Unit
HasFileMaps (some v1) = HasDistinctKeys v1.files

-- The file is not there.
abbrev pub IsAbsent : {W : Type 0} → Str → Client W → Type 0
IsAbsent f s = (exists f s.files ≡ false) × HasFileMaps s.config.v1

-- If the file is there, it is `tmpfile`.
abbrev pub IsOnly : {W : Type 0} → Str → Str → Client W → Type 0
IsOnly f tmpfile s = ((tmpfile ≡ f) ⊎ (exists f s.files ≡ false)) × HasFileMaps s.config.v1

module _ {W : Type 0} (f : Str) where
  pub on_world-Keeps : {A : Type 0} (a : Exec W Error A) → Keeps (IsAbsent f) (on_world a)
  unfolding on_world
  on_world-Keeps a = record { at = λ s h. h }

  pub get_v1-Keeps : Keeps (IsAbsent {W = W} f) get_v1
  unfolding get_v1
  get_v1-Keeps = record { at = λ s h. h }

  pub remove_file-IsAbsent :
      (tmpfile : Str) (s : Client W) → IsOnly f tmpfile s → IsAbsent f (remove_file tmpfile s)
  unfolding remove_file
  remove_file-IsAbsent tmpfile s (inl same, maps) =
      (ground (arith, exists-delete f tmpfile s.files, eq_iff tmpfile f), maps)
  remove_file-IsAbsent tmpfile s (inr absent, maps) =
      (ground (arith, exists-delete f tmpfile s.files), maps)

  made-Ends :
      (r : Outcome Error Str) (s : Client W) (w : W)
      → IsAbsent f s
      → Ends (IsOnly f) (λ _. IsAbsent f) r (record s { files = made r s.files; world = w })
  made-Ends (ok tmpfile) s w (absent, maps) = (exists-made f tmpfile s.files absent, maps)
  made-Ends (err e) s w absent = absent

  pub create_temp-Ensures :
      (m : Machine W) (pattern : Str)
      → Ensures (IsAbsent f) (create_temp m pattern) (IsOnly f) (λ _. IsAbsent f)
  unfolding create_temp
  create_temp-Ensures m pattern = record {
    at = λ s absent. let (r, w) = m.temp_file pattern s.world in made-Ends r s w absent;
  }

  failed-Ends :
      {A : Type 0} (r : Outcome Error A) (tmpfile : Str) (s : Client W)
      → IsOnly f tmpfile s
      → Ends (λ _. IsOnly f tmpfile) (λ _. IsAbsent f) r (on_err r (remove_file tmpfile) s)
  failed-Ends (ok a) tmpfile s h = h
  failed-Ends (err e) tmpfile s h = remove_file-IsAbsent tmpfile s h

  -- A step that removes the temporary file if it fails.
  pub on_failure-Ensures :
      {A : Type 0} (a : Action W A) (tmpfile : Str)
      → Keeps (IsOnly f tmpfile) a
      → Ensures
          (IsOnly f tmpfile)
          (on_failure a (remove_file tmpfile))
          (λ _. IsOnly f tmpfile)
          (λ _. IsAbsent f)
  on_failure-Ensures a tmpfile k = record {
    at = λ s h. let (r, s') = a s in failed-Ends r tmpfile s' (k.at s h);
  }

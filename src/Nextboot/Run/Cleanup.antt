-- ===== src/Nextboot/Run/Cleanup.antt =====
-- nextboot/v1.go: cleanupFiles.
use epoxy.Base.{
  Str, ascii, Bool, false, not, ◌&&◌, ◌||◌, ◌==◌, ◌≡◌, ap, ◌∙◌, Option, none, some, [], ◌∷◌, arith,
}
use epoxy.Base.Dict.{Dict, lookup}
use epoxy.Nextboot.Config.{V1}
use epoxy.Nextboot.Client.{Client, remove_file}
use epoxy.Nextboot.Files.{exists, exists-delete}
use epoxy.Nextboot.Run.{remove_named, cleanup_v1, cleanup_specs, cleanup_files}

abbrev is_name : Str → Option Str → Bool
is_name f none = false
is_name f (some g) = g == f

-- Whether an action's `files` give a file's name.
abbrev pub is_named : Str → Dict (Dict Str) → Bool
is_named f [] = false
is_named f ((_, spec) ∷ rest) = is_name f (lookup (ascii "name") spec) || is_named f rest

module _ {W : Type 0} where
  exists-remove_named :
      (f : Str) (name : Option Str) (s : Client W)
      → exists f (remove_named name s).files ≡ (exists f s.files && not (is_name f name))
  unfolding remove_file
  exists-remove_named f none s = ground arith
  exists-remove_named f (some g) s = exists-delete f g s.files

  exists-cleanup_specs :
      (f : Str) (specs : Dict (Dict Str)) (s : Client W)
      → exists f (cleanup_specs specs s).files ≡ (exists f s.files && not (is_named f specs))
  unfolding cleanup_specs
  exists-cleanup_specs f [] s = ground arith
  exists-cleanup_specs f ((_, spec) ∷ rest) s = ground (
    arith,
    exists-cleanup_specs f rest (remove_named (lookup (ascii "name") spec) s),
    exists-remove_named f (lookup (ascii "name") spec) s,
  )

  -- After the clean-up of a loaded action, a file exists just if it did before and no entry of the
  -- action's files has it as its name.
  pub exists-cleanup_files :
      (f : Str) (v1 : V1) (s : Client W)
      → s.config.v1 ≡ some v1
      → exists f (cleanup_files s).files ≡ (exists f s.files && not (is_named f v1.files))
  unfolding cleanup_files
  exists-cleanup_files f v1 s e =
      ap (λ o. exists f (cleanup_v1 o s).files) e ∙ exists-cleanup_specs f v1.files s

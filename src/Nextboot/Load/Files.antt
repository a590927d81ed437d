-- ===== src/Nextboot/Load/Files.antt =====
-- nextboot/v1.go: the temporary files of loadAction.
use epoxy.Base.{
  ℕ, zero, suc, Str, ascii, ◌==◌, not, ◌||◌, leb, ◌≡◌, ◌⊎◌, inl, inr, refl, ap, Bool, false, Option,
  none, some, [], Error, Outcome, ok, err,
}
use epoxy.Base.Dict.{Dict}
use epoxy.Base.Exec.{
  Exec, lift, ◌>>=◌, Keeps, Keeps-pure, Keeps-stop, Keeps-lift, Keeps-bind, Keeps-if,
}
use epoxy.Base.Exec.Ensures.{
  Ensures, Ensures-bind, Ensures-pure, Ensures-stop, Ensures-if, Ensures-Keeps, Keeps-Ensures,
  Ends-always,
}
use epoxy.Go.Strings.{has_prefix}
use epoxy.Nextboot.Config.{Config}
use epoxy.Nextboot.Client.{Machine, Client, on_world, get_v1}
use epoxy.Nextboot.Files.{
  exists, get_v1-Keeps, IsAbsent, IsOnly, HasFileMaps, on_world-Keeps, remove_file-IsAbsent,
  create_temp-Ensures, on_failure-Ensures,
}
use epoxy.Nextboot.Load.{
  Body, adopt, put_config, remove_body, post_download, file_download, get_download, fetch,
  apply_body, load_action, maybe_load_chain,
}

abbrev pub DecodesFileMaps : {W : Type 0} → Machine W → Type 0
DecodesFileMaps m = (body : Str) (n : Config) → m.decode body ≡ ok (some n) → HasFileMaps n.v1

module _ {W : Type 0} (m : Machine W) (f : Str) where
  -- The body's file, where it is `f`.
  abbrev Fetched : Body → Client W → Type 0
  Fetched body s = ((body.1 ≡ some f) ⊎ (exists f s.files ≡ false)) × HasFileMaps s.config.v1

  on_world-Only :
      (tmpfile : Str) {A : Type 0} (a : Exec W Error A) → Keeps (IsOnly f tmpfile) (on_world a)
  unfolding on_world
  on_world-Only tmpfile a = record { at = λ s h. h }

  file_download-Only :
      (tmpfile dest source : Str) (spec : Dict Str)
      → Keeps (IsOnly f tmpfile) (file_download m dest source spec)
  unfolding file_download
  file_download-Only tmpfile dest source spec =
      Keeps-bind _ _ (Keeps-lift _) λ _. Keeps-bind _ _ (Keeps-lift _) λ _. on_world-Only tmpfile _

  get_download-Ensures :
      (source : Str) → Ensures (IsAbsent f) (get_download m source) (IsOnly f) (λ _. IsAbsent f)
  unfolding get_download
  get_download-Ensures source = Ensures-bind _ _ (create_temp-Ensures f m _) λ tmpfile.
      Ensures-bind _ _ (on_failure-Ensures f _ tmpfile (file_download-Only tmpfile _ _ _))
        λ _. Ensures-pure tmpfile λ s h. h

  no_file : (body : Str) (s : Client W) → IsAbsent f s → Fetched (body, none) s
  no_file body s (absent, maps) = (inr absent, maps)

  fetch-Ensures :
      (source method : Str) → Ensures (IsAbsent f) (fetch m source method) Fetched (λ _. IsAbsent f)
  unfolding fetch post_download
  fetch-Ensures source method =
      Ensures-if (has_prefix source (ascii "file://")) _ _
        (λ _.
          Ensures-bind {Q = λ _. IsAbsent f} _ _ (Ensures-Keeps _ (on_world-Keeps f _))
            λ body. Ensures-pure (body, none) (no_file body))
        λ _.
          Ensures-if (method == ascii "POST") _ _
            (λ _.
              Ensures-bind {Q = λ _. IsAbsent f} _ _
                (Ensures-Keeps _ (
                  Keeps-bind _ _ (on_world-Keeps f _) λ resp.
                    Keeps-if (not (leb 200 resp.status_code) || leb 300 resp.status_code) _ _
                      (λ _. Keeps-stop _) (λ _. Keeps-pure _)))
                λ body. Ensures-pure (body, none) (no_file body))
            λ _.
              Ensures-if (method == ascii "GET") _ _
                (λ _. Ensures-bind _ _ (get_download-Ensures source) λ file.
                  Ensures-bind _ _ (on_failure-Ensures f _ file (on_world-Only file _))
                    λ body. Ensures-pure (body, some file) (kept_file body file))
                (λ _. Ensures-stop _ λ s h. h)
    where
      kept_file : (body file : Str) (s : Client W) → IsOnly f file s → Fetched (body, some file) s
      kept_file body file s (inl same, maps) = (inl (ap some same), maps)
      kept_file body file s (inr absent, maps) = (inr absent, maps)

  remove_body-IsAbsent :
      (text : Str) (name : Option Str) (s : Client W)
      → Fetched (text, name) s
      → IsAbsent f (remove_body name s)
  remove_body-IsAbsent text none s (inl same, maps) = cc
  remove_body-IsAbsent text none s (inr absent, maps) = (absent, maps)
  remove_body-IsAbsent text (some name) s (inl same, maps) =
      remove_file-IsAbsent f name s (inl cc, maps)
  remove_body-IsAbsent text (some name) s (inr absent, maps) =
      remove_file-IsAbsent f name s (inr absent, maps)

  module _ (decodes : DecodesFileMaps m) where
    adopted-Fetched :
        (body : Body) (text : Str) (add_kargs : Bool) (r : Outcome Error (Option Config))
        (s : Client W)
        → m.decode text ≡ r
        → Fetched body s
        → Fetched body ((lift r >>= λ n s. put_config (adopt add_kargs n s.config) s) s).1
    unfolding ◌>>=◌ adopt
    adopted-Fetched body text add_kargs (err e) s e' h = h
    adopted-Fetched body text add_kargs (ok none) s e' h = h
    adopted-Fetched body text add_kargs (ok (some n)) s e' (there, maps) =
        (there, decodes text n e')

    apply_body-Keeps :
        (body : Body) (text : Str) (add_kargs : Bool)
        → Keeps (Fetched body) (apply_body m text add_kargs)
    unfolding apply_body
    apply_body-Keeps body text add_kargs = record {
      at = λ s h. adopted-Fetched body text add_kargs (m.decode text) s refl h;
    }

    pub load_action-Keeps :
        (source method : Str) (add_kargs : Bool)
        → Keeps (IsAbsent f) (load_action m source method add_kargs)
    unfolding load_action
    load_action-Keeps source method add_kargs = Keeps-Ensures _ (
        Ensures-bind (fetch m source method) _ (fetch-Ensures source method) λ body. record {
          at = λ s h.
              let (r, s') = apply_body m body.0 add_kargs s in
              Ends-always (IsAbsent f) r _ (
                remove_body-IsAbsent body.0 body.1 s'
                  ((apply_body-Keeps body body.0 add_kargs).at s h));
        })

    pub maybe_load_chain-Keeps : (fuel : ℕ) → Keeps (IsAbsent f) (maybe_load_chain m fuel)
    unfolding maybe_load_chain ascii
    maybe_load_chain-Keeps zero = Keeps-pure _
    maybe_load_chain-Keeps (suc fuel) = Keeps-bind get_v1 _ (get_v1-Keeps f) λ v1.
        Keeps-if (v1.chain == []) _ _ (λ _. Keeps-pure _)
          λ _. Keeps-bind _ _ (load_action-Keeps v1.chain _ _) λ _. maybe_load_chain-Keeps fuel

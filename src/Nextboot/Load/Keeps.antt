-- ===== src/Nextboot/Load/Keeps.antt =====
-- nextboot/v1.go: what loading a configuration leaves as it is.
use epoxy.Base.{
  ℕ, zero, suc, Str, Bool, true, false, ascii, ◌==◌, not, ◌||◌, ◌≡◌, refl, Option, none, some, List,
  [], leb, arith, ok, err, Result, if◌then◌else◌,
}
use epoxy.Base.Dict.{Dict, lookup}
use epoxy.Base.Exec.{lift, ◌>>=◌, Keeps, Keeps-pure, Keeps-stop, Keeps-lift, Keeps-bind, Keeps-if}
use epoxy.Go.Strings.{has_prefix}
use epoxy.Nextboot.Config.{Config}
use epoxy.Nextboot.Client.{Machine, Client, remove_file}
use epoxy.Nextboot.Kept.{
  DecodesMaps, Kept, on_world-Keeps, create_temp-Keeps, get_v1-Keeps, on_failure-Keeps,
  finally-Keeps,
}
use epoxy.Nextboot.Load.{
  merge_kargs, adopt, put_config, remove_body, post_download, file_download, get_download, fetch,
  apply_body, load_action, maybe_load_chain,
}
use epoxy.Nextboot.Load.Kargs.{lookup-merge_kargs}

module _ {W : Type 0} (m : Machine W) (env kargs : Dict Str) where
  pub post_download-Keeps :
      (source : Str) (values : Dict (List Str))
      → Keeps (Kept env kargs) (post_download m source values)
  unfolding post_download
  post_download-Keeps source values = Keeps-bind _ _ (on_world-Keeps env kargs _) (λ resp.
      Keeps-if (not (leb 200 resp.status_code) || leb 300 resp.status_code) _ _ (λ _. Keeps-stop _)
        (λ _. Keeps-pure _))

  pub file_download-Keeps :
      (dest source : Str) (urlspec : Dict Str)
      → Keeps (Kept env kargs) (file_download m dest source urlspec)
  unfolding file_download
  file_download-Keeps dest source urlspec =
      Keeps-bind _ _ (Keeps-lift _)
        (λ _. Keeps-bind _ _ (Keeps-lift _) (λ _. on_world-Keeps env kargs _))

  get_download-Keeps : (source : Str) → Keeps (Kept env kargs) (get_download m source)
  unfolding get_download
  get_download-Keeps source = Keeps-bind _ _ (create_temp-Keeps env kargs m _) (λ tmpfile.
      Keeps-bind _ _ (on_failure-Keeps env kargs _ _ (file_download-Keeps _ _ _))
        (λ _. Keeps-pure _))

  fetch-Keeps : (source method : Str) → Keeps (Kept env kargs) (fetch m source method)
  unfolding fetch
  fetch-Keeps source method =
      Keeps-if (has_prefix source (ascii "file://")) _ _
        (λ _. Keeps-bind _ _ (on_world-Keeps env kargs _) (λ _. Keeps-pure _))
        (λ _.
          Keeps-if (method == ascii "POST") _ _
            (λ _. Keeps-bind _ _ (post_download-Keeps _ _) (λ _. Keeps-pure _))
            (λ _.
              Keeps-if (method == ascii "GET") _ _
                (λ _. Keeps-bind _ _ (get_download-Keeps _) (λ file.
                  Keeps-bind _ _ (on_failure-Keeps env kargs _ _ (on_world-Keeps env kargs _))
                    (λ _. Keeps-pure _)))
                (λ _. Keeps-stop _)))

  remove_body-Kept :
      (file : Option Str) (s : Client W) → Kept env kargs s → Kept env kargs (remove_body file s)
  unfolding remove_file
  remove_body-Kept none s h = h
  remove_body-Kept (some name) s h = h

  lookup-adopted :
      (add_kargs : Bool) (n c : Dict Str) (k v : Str)
      → lookup k c ≡ some v
      → lookup k (if add_kargs then merge_kargs n c else c) ≡ some v
  lookup-adopted add_kargs n c k v h = ground (arith, lookup-merge_kargs n c k)

  put_config-Keeps :
      (body : Str) (add_kargs : Bool) (r : Result (Option Config)) (s : Client W)
      → DecodesMaps m
      → m.decode body ≡ r
      → Kept env kargs s
      → Kept env kargs ((lift r >>= λ n s. put_config (adopt add_kargs n s.config) s) s).1
  unfolding ◌>>=◌ adopt
  put_config-Keeps body add_kargs (err e) s dm e' h = h
  put_config-Keeps body add_kargs (ok none) s dm e' h = h
  put_config-Keeps body add_kargs (ok (some n)) s dm e' (he, hk, hm) =
      (he, λ k v l. lookup-adopted add_kargs n.kargs s.config.kargs k v (hk k v l), dm body n e')

  apply_body-Keeps :
      (body : Str) (add_kargs : Bool)
      → DecodesMaps m
      → Keeps (Kept env kargs) (apply_body m body add_kargs)
  unfolding apply_body
  apply_body-Keeps body add_kargs dm = record {
    at = λ s h. put_config-Keeps body add_kargs (m.decode body) s dm refl h;
  }

  pub load_action-Keeps :
      (source method : Str) (add_kargs : Bool)
      → DecodesMaps m
      → Keeps (Kept env kargs) (load_action m source method add_kargs)
  unfolding load_action
  load_action-Keeps source method add_kargs dm = Keeps-bind _ _ (fetch-Keeps source method) (λ body.
      finally-Keeps env kargs _ (remove_body body.1) (remove_body-Kept body.1)
        (apply_body-Keeps _ _ dm))

  pub maybe_load_chain-Keeps :
      (fuel : ℕ) → DecodesMaps m → Keeps (Kept env kargs) (maybe_load_chain m fuel)
  unfolding maybe_load_chain
  maybe_load_chain-Keeps zero dm = Keeps-pure false
  maybe_load_chain-Keeps (suc fuel) dm = Keeps-bind _ _ (get_v1-Keeps env kargs) (λ v1.
      Keeps-if (v1.chain == []) _ _ (λ _. Keeps-pure true)
        (λ _. Keeps-bind _ _ (load_action-Keeps _ _ _ dm) (λ _. maybe_load_chain-Keeps fuel dm)))

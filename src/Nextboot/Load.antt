-- ===== src/Nextboot/Load.antt =====
-- nextboot/v1.go: configurations are loaded from files and URLs, and chains are followed.
pub mod Kargs
pub mod Chains
pub mod Keeps
pub mod Files
use epoxy.Base.{
  ℕ, zero, suc, Str, ascii, ◌==◌, Bool, true, false, not, ◌||◌, Option, none, some, List, [], ◌∷◌,
  leb, Error, bad_status, external, nil_dereference, Outcome, ok, err, Result, if◌then◌else◌,
}
use epoxy.Base.Dict.{Dict, lookup, insert, found}
use epoxy.Base.Exec.{Exec, pure, stop, lift, finally, on_err, on_failure, ◌>>=◌, ◌>>◌}
use epoxy.Go.Strings.{has_prefix, drop}
use epoxy.Go.Hex
use epoxy.Nextboot.Config.{Config, V1}
use epoxy.Nextboot.Client.{
  Response, Machine, Client, Action, on_world, remove_file, create_temp, get_v1, put_v1,
}

-- rawSum, err := hex.DecodeString(checksum)
abbrev pub raw_sum : Option Str → Result (Option Str)
raw_sum none = ok none
raw_sum (some checksum) = elim (Hex.decode checksum) [
  | none ↦ err (external [])
  | some raw ↦ ok (some raw)
]

-- Only new keys are added.
unfoldable pub merge_kargs : Dict Str → Dict Str → Dict Str
merge_kargs [] kargs = kargs
merge_kargs ((k, v) ∷ rest) kargs =
    merge_kargs rest (if found (lookup k kargs) then kargs else insert k v kargs)

-- The end of loadAction: `n` is the decoded configuration, nil if the text was `null`.
unfoldable pub adopt : Bool → Option Config → Config → Result Config
adopt add_kargs none c = err nil_dereference
adopt add_kargs (some n) c =
    ok (record { kargs = if add_kargs then merge_kargs n.kargs c.kargs else c.kargs; v1 = n.v1 })

-- A body, and the temporary file that it is read from.
abbrev pub Body : Type 0
Body = Str × Option Str

abbrev pub remove_body : {W : Type 0} → Option Str → Client W → Client W
remove_body none s = s
remove_body (some name) s = remove_file name s

abbrev pub put_config :
    {W : Type 0} → Outcome Error Config → Client W → Outcome Error (Unit {0}) × Client W
put_config (ok c) s = (ok tt, record s { config = c })
put_config (err e) s = (err e, s)

module _ {W : Type 0} (m : Machine W) where
  unfoldable pub post_download : Str → Dict (List Str) → Action W Str
  post_download source values = do
    resp ← on_world (m.post source values)
    if not (leb 200 resp.status_code) || leb 300 resp.status_code
        then stop (bad_status resp.status_code)
        else pure resp.body

  -- `urlspec` is empty where the source passes nil.
  unfoldable pub file_download : Str → Str → Dict Str → Action W (Unit {0})
  unfolding ascii
  file_download dest source urlspec = do
    lift (m.new_grab_request dest source)
    sum ← lift (raw_sum (lookup (ascii "sha256") urlspec))
    on_world (m.grab dest source sum)

  unfoldable pub get_download : Str → Action W Str
  unfolding ascii
  get_download source = do
    tmpfile ← create_temp m (ascii "getdownload-")
    on_failure (file_download tmpfile source []) (remove_file tmpfile)
    pure tmpfile

  -- The switch of loadAction. A body that stays nil is closed at the end, which panics.
  unfoldable pub fetch : Str → Str → Action W Body
  unfolding ascii
  fetch source method =
      if has_prefix source (ascii "file://")
      then (do body ← on_world (m.open_file (drop 7 source)); pure (body, none))
      else if method == ascii "POST"
      then (do body ← post_download source []; pure (body, none))
      else if method == ascii "GET"
      then (do
        file ← get_download source
        body ← on_failure (on_world (m.read_file file)) (remove_file file)
        pure (body, some file))
      else stop nil_dereference

  unfoldable pub apply_body : Str → Bool → Action W (Unit {0})
  apply_body body add_kargs = do
    n ← lift (m.decode body)
    λ s. put_config (adopt add_kargs n s.config) s

  unfoldable pub load_action : Str → Str → Bool → Action W (Unit {0})
  load_action source method add_kargs = do
    body ← fetch source method
    finally (apply_body body.0 add_kargs) (remove_body body.1)

  -- `for c.V1.Chain != ""`, for a number of rounds. The result says whether the loop has ended.
  unfoldable pub maybe_load_chain : ℕ → Action W Bool
  unfolding ascii
  maybe_load_chain zero = pure false
  maybe_load_chain (suc fuel) =
      let rest = maybe_load_chain fuel in
      do
        v1 ← get_v1
        if v1.chain == [] then pure true else do load_action v1.chain (ascii "GET") false; rest

-- ===== src/Nextboot/Client.antt =====
-- The state of an ePoxy client, and what it calls of the system and of other packages.
use epoxy.Base.{
  ℕ, Str, Option, none, some, List, [], ◌∷◌, ◌==◌, Error, nil_dereference, Outcome, ok, err, Result,
  if◌then◌else◌,
}
use epoxy.Base.Dict.{Dict}
use epoxy.Base.Exec.{Exec}
use epoxy.Nextboot.Config.{Config, V1, Value}

-- http.Response, with its body as it will be read
pub record Response : Type 0 where
  pub status_code : ℕ
  pub body : Str

-- text/template, shlex, encoding/json, net/http, grab, and the operating system's files and
-- processes. A command sees the environment; it may change the world and the files, and cannot
-- change the environment of the client.
pub record Machine (W : Type 0) : Type 0 where
  -- the template's text; kargs; .vars and .files, where the template may use them
  pub template : Str → Dict Str → Option (Dict Value) → Option (Dict (Dict Str)) → Result Str
  pub shlex_split : Str → Result (List Str)
  pub decode : Str → Result (Option Config)
  pub config_string : Config → Str
  pub open_file : Str → Exec W Error Str
  pub read_file : Str → Exec W Error Str
  pub temp_file : Str → Exec W Error Str
  pub post : Str → Dict (List Str) → Exec W Error Response
  pub new_grab_request : Str → Str → Result (Unit {0})
  pub grab : Str → Str → Option Str → Exec W Error (Unit {0})
  pub run_command : List Str → Dict Str → List Str → W → Outcome Error (Unit {0}) × List Str × W

-- The client's process: its configuration, its environment, the files that exist, the world.
pub record Client (W : Type 0) : Type 0 where
  pub config : Config
  pub env : Dict Str
  pub files : List Str
  pub world : W

abbrev pub Action : Type 0 → Type 0 → Type 0
Action W A = Exec (Client W) Error A

-- The names that are left when `name` is removed.
unfoldable pub delete : Str → List Str → List Str
delete name [] = []
delete name (f ∷ fs) = let rest = delete name fs in if f == name then rest else f ∷ rest

-- *c.V1, which panics on nil
abbrev pub deref : Option V1 → Outcome Error V1
deref none = err nil_dereference
deref (some v1) = ok v1

abbrev pub made : Outcome Error Str → List Str → List Str
made (ok name) files = name ∷ files
made (err e) files = files

module _ {W : Type 0} where
  unfoldable pub on_world : {A : Type 0} → Exec W Error A → Action W A
  on_world m s = let (r, w) = m s.world in (r, record s { world = w })

  -- os.Remove(name), whose error is ignored
  unfoldable pub remove_file : Str → Client W → Client W
  remove_file name s = record s { files = delete name s.files }

  -- ioutil.TempFile("", pattern)
  unfoldable pub create_temp : Machine W → Str → Action W Str
  create_temp m pattern s =
      let (r, w) = m.temp_file pattern s.world in
      (r, record s { files = made r s.files; world = w })

  unfoldable pub get_v1 : Action W V1
  get_v1 s = (deref s.config.v1, s)

  abbrev pub put_v1 : V1 → Client W → Client W
  put_v1 v1 s = record s { config = record s.config { v1 = some v1 } }

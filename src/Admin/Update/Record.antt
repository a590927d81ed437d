-- ===== src/Admin/Update/Record.antt =====
-- cmd/epoxy_admin/command/update.go: the flags, and what they change in a Host record.
use epoxy.Base.{Str, ◌==◌, Bool, false, not, List, [], ◌∷◌, ok, Result, if◌then◌else◌}
use epoxy.Base.Dict.{Dict, lookup, insert, or_empty}
use epoxy.Base.Fallible.{◌>>=◌}
use epoxy.Storage.Host.{Host, stage1_ipxe, stage1_json, stage2, stage3}
use epoxy.Admin.Tools.{Tools, fmt_url}

pub record UpdateFlags : Type 0 where
  pub hostname : Str
  pub address : Str
  pub extensions : List Str
  pub update : Bool
  pub boot_stage1 : Str
  pub boot_stage1_json : Str
  pub boot_stage2 : Str
  pub boot_stage3 : Str
  pub update_stage1 : Str
  pub update_stage1_json : Str
  pub update_stage2 : Str
  pub update_stage3 : Str
  pub images_version : Str

-- The values that `init` gives the flags.
abbrev pub update_defaults : UpdateFlags
update_defaults = record {
  hostname = [];
  address = [];
  extensions = [];
  update = false;
  boot_stage1 = [];
  boot_stage1_json = [];
  boot_stage2 = [];
  boot_stage3 = [];
  update_stage1 = [];
  update_stage1_json = [];
  update_stage2 = [];
  update_stage3 = [];
  images_version = [];
}

module _ {W : Type 0} (t : Tools W) (project : Str) where
  -- updateURL
  unfoldable pub update_url : Str → Str → Result Str
  update_url url original = if not (url == []) then fmt_url t project url else ok original

  -- m[stage] = updateURL(fmtURL(flag), m[stage])
  unfoldable pub set_stage : Str → Str → Dict Str → Result (Dict Str)
  set_stage stage flag m = do
    url ← fmt_url t project flag
    new ← update_url url (or_empty (lookup stage m))
    ok (insert stage new m)

  unfoldable pub set_sequence : Str → Str → Str → Str → Dict Str → Result (Dict Str)
  set_sequence flag1 flag1_json flag2 flag3 m = do
    m₁ ← set_stage stage1_ipxe flag1 m
    m₂ ← set_stage stage1_json flag1_json m₁
    m₃ ← set_stage stage2 flag2 m₂
    set_stage stage3 flag3 m₃

  abbrev chosen : List Str → List Str → List Str
  chosen [] old = old
  chosen (x ∷ xs) old = x ∷ xs

  -- handleUpdate
  unfoldable pub handle_update : UpdateFlags → Host → Result Host
  handle_update f h = do
    boot ← set_sequence f.boot_stage1 f.boot_stage1_json f.boot_stage2 f.boot_stage3 h.boot
    update ←
        set_sequence f.update_stage1 f.update_stage1_json f.update_stage2 f.update_stage3 h.update
    ok (record h {
      update_enabled = f.update;
      extensions = chosen f.extensions h.extensions;
      ipv4_addr = if not (f.address == []) then f.address else h.ipv4_addr;
      boot = boot;
      update = update;
      images_version = if not (f.images_version == []) then f.images_version else h.images_version;
    })

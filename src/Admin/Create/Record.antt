-- ===== src/Admin/Create/Record.antt =====
-- cmd/epoxy_admin/command/create.go: the flags, and the Host record that is made from them.
use epoxy.Base.{Str, ascii, Bool, false, List, [], ◌∷◌, ok, Result}
use epoxy.Base.Fallible.{◌>>=◌}
use epoxy.Storage.Host.{Host, stage1_ipxe, stage1_json, stage2, stage3}
use epoxy.Admin.Tools.{Tools, fmt_url}

pub record CreateFlags : Type 0 where
  pub hostname : Str
  pub address : Str
  pub extensions : List Str
  pub update : Bool
  pub boot_stage1 : Str
  pub boot_stage1_json : Str
  pub boot_stage2 : Str
  pub boot_stage3 : Str
  pub update_stage1 : Str
  pub update_stage1_json : Str
  pub update_stage2 : Str
  pub update_stage3 : Str
  pub images_version : Str

-- The values that `init` gives the flags.
abbrev pub create_defaults : CreateFlags
create_defaults = record {
  hostname = [];
  address = [];
  extensions = ascii "allocate_k8s_token" ∷ ascii "bmc_store_password" ∷ [];
  update = false;
  boot_stage1 =
      ascii
        "https://epoxy-boot-api.%s.measurementlab.net:4430/v1/storage/{{VERSION}}/stage3_ubuntu/stage1to2.ipxe";
  boot_stage1_json =
      ascii "https://storage.googleapis.com/epoxy-%s/{{VERSION}}/stage3_ubuntu/stage1to2.json";
  boot_stage2 =
      ascii "https://storage.googleapis.com/epoxy-%s/{{VERSION}}/stage3_ubuntu/stage2to3.json";
  boot_stage3 =
      ascii "https://storage.googleapis.com/epoxy-%s/{{VERSION}}/stage3_ubuntu/stage3post.json";
  update_stage1 =
      ascii
        "https://epoxy-boot-api.%s.measurementlab.net:4430/v1/storage/{{VERSION}}/stage3_update/stage1to2.ipxe";
  update_stage1_json =
      ascii "https://storage.googleapis.com/epoxy-%s/{{VERSION}}/stage3_update/stage1to2.json";
  update_stage2 =
      ascii "https://storage.googleapis.com/epoxy-%s/{{VERSION}}/stage3_update/stage2to3.json";
  update_stage3 =
      ascii "https://storage.googleapis.com/epoxy-%s/{{VERSION}}/stage3_update/stage3post_mlx.json";
  images_version = ascii "latest";
}

module _ {W : Type 0} (t : Tools W) (project : Str) where
  -- The literal of runCreate.
  unfoldable pub new_host : CreateFlags → Result Host
  new_host f = do
    boot1 ← fmt_url t project f.boot_stage1
    boot1_json ← fmt_url t project f.boot_stage1_json
    boot2 ← fmt_url t project f.boot_stage2
    boot3 ← fmt_url t project f.boot_stage3
    update1 ← fmt_url t project f.update_stage1
    update1_json ← fmt_url t project f.update_stage1_json
    update2 ← fmt_url t project f.update_stage2
    update3 ← fmt_url t project f.update_stage3
    ok (record {
      name = f.hostname;
      ipv4_addr = f.address;
      boot =
          (stage1_ipxe, boot1) ∷ (stage1_json, boot1_json) ∷ (stage2, boot2) ∷ (stage3, boot3) ∷ [];
      update =
          (stage1_ipxe, update1)
          ∷ (stage1_json, update1_json)
          ∷ (stage2, update2)
          ∷ (stage3, update3)
          ∷ [];
      images_version = f.images_version;
      update_enabled = f.update;
      extensions = f.extensions;
      current_session_ids = record {
        stage2_id = [];
        stage3_id = [];
        report_id = [];
        extension_id = [];
      };
      last_session_creation = 0;
      last_report = 0;
      last_success = 0;
      collected_information = [];
    })

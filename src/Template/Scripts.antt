-- ===== src/Template/Scripts.antt =====
-- template/template.go: the values of the stage1 scripts, and the scripts.
use epoxy.Base.{Str, ascii, some, List, [], ◌∷◌, ◌++◌, same_byte, if◌then◌else◌}
use epoxy.Base.Dict.{Dict, lookup, insert, or_empty}
use epoxy.Go.Strings.{replace_first}
use epoxy.Go.Sort.{sort_keys}
use epoxy.Storage.Host.{Host, stage1_ipxe, stage1_json, current_sequence}
use epoxy.Nextboot.Config.{Config, V1}

-- Sprintf("https://%s/v1/boot/%s/%s/…", serverAddr, h.Name, id)
unfoldable pub boot_url : Str → Str → Str → Str → Str
unfolding ascii
boot_url server name id target =
    ascii "https://"
    ++ (server ++ (ascii "/v1/boot/" ++ (name ++ (b'/' ∷ (id ++ (b'/' ∷ target))))))

unfoldable pub stage2_url : Host → Str → Str
unfolding ascii boot_url
stage2_url h server = boot_url server h.name h.current_session_ids.stage2_id (ascii "stage2")

unfoldable pub stage3_url : Host → Str → Str
unfolding ascii boot_url
stage3_url h server = boot_url server h.name h.current_session_ids.stage3_id (ascii "stage3")

unfoldable pub report_url : Host → Str → Str
unfolding ascii boot_url
report_url h server = boot_url server h.name h.current_session_ids.report_id (ascii "report")

unfoldable pub extension_url : Host → Str → Str → Str
unfolding ascii boot_url
extension_url h server operation =
    boot_url server h.name h.current_session_ids.extension_id (ascii "extension/" ++ operation)

-- strings.Replace(s[stage], "{{VERSION}}", h.ImagesVersion, 1)
unfoldable pub chain_url : Host → Str → Str
unfolding ascii current_sequence
chain_url h stage =
    replace_first (or_empty (lookup stage (current_sequence h))) (ascii "{{VERSION}}")
      h.images_version

-- The loop of FormatStage1IPXEScript over h.Extensions.
unfoldable pub extension_urls : Host → Str → List Str → Dict Str → Dict Str
extension_urls h server [] urls = urls
extension_urls h server (operation ∷ rest) urls =
    extension_urls h server rest (insert operation (extension_url h server operation) urls)

-- What html/template writes for a string in the text of a document.
unfoldable pub html_escape : Str → Str
unfolding ascii
html_escape [] = []
html_escape (c ∷ s) =
    let rest = html_escape s in
    if same_byte c 0
    then 0xef ∷ 0xbf ∷ 0xbd ∷ rest
    else if same_byte c b'"'
    then ascii "&#34;" ++ rest
    else if same_byte c b'&'
    then ascii "&amp;" ++ rest
    else if same_byte c 39
    then ascii "&#39;" ++ rest
    else if same_byte c b'+'
    then ascii "&#43;" ++ rest
    else if same_byte c b'<'
    then ascii "&lt;" ++ rest
    else if same_byte c b'>'
    then ascii "&gt;" ++ rest
    else c ∷ rest

-- The lines of the range over .Extensions, which goes in the order of the keys.
unfoldable pub extension_lines : Dict Str → Str
unfolding ascii
extension_lines [] = []
extension_lines ((key, value) ∷ rest) =
    10
    ∷ (ascii "set "
        ++ (html_escape key ++ (ascii "_url " ++ (html_escape value ++ extension_lines rest))))

set_line : Str → Str → Str
unfolding ascii
set_line name value = ascii "set " ++ (name ++ (32 ∷ html_escape value))

-- The values of the template.
pub record Stage1Values : Type 0 where
  pub stage1_chain_url : Str
  pub stage2_url : Str
  pub stage3_url : Str
  pub report_url : Str
  pub images_version : Str
  pub extensions : Dict Str

unfoldable pub stage1_values : Host → Str → Stage1Values
stage1_values h server = record {
  stage1_chain_url = chain_url h stage1_ipxe;
  stage2_url = stage2_url h server;
  stage3_url = stage3_url h server;
  report_url = report_url h server;
  images_version = h.images_version;
  extensions = extension_urls h server h.extensions [];
}

-- stage1IpxeTemplate, executed
unfoldable pub execute_stage1_ipxe : Stage1Values → Str
unfolding ascii set_line extension_lines html_escape sort_keys
execute_stage1_ipxe vals =
    ascii "#!ipxe"
    ++ (10
        ∷ 10
        ∷ (set_line (ascii "stage1chain_url") vals.stage1_chain_url
            ++ (10
                ∷ (set_line (ascii "stage2_url") vals.stage2_url
                    ++ (10
                        ∷ (set_line (ascii "stage3_url") vals.stage3_url
                            ++ (10
                                ∷ (set_line (ascii "report_url") vals.report_url
                                    ++ (10
                                        ∷ (set_line (ascii "images_version") vals.images_version
                                            ++ (extension_lines (sort_keys vals.extensions)
                                                ++ (10
                                                    ∷ 10
                                                    ∷ (ascii "chain ${stage1chain_url}"
                                                        ++ (10 ∷ []))))))))))))))

unfoldable pub format_stage1_ipxe_script : Host → Str → Str
format_stage1_ipxe_script h server = execute_stage1_ipxe (stage1_values h server)

abbrev pub epoxy_key : Str → Str
unfolding ascii
epoxy_key name = ascii "epoxy." ++ name

-- The loop of CreateStage1Action over h.Extensions.
unfoldable pub extension_kargs : Host → Str → List Str → Dict Str → Dict Str
extension_kargs h server [] kargs = kargs
extension_kargs h server (operation ∷ rest) kargs =
    extension_kargs h server rest
      (insert (epoxy_key operation) (extension_url h server operation) kargs)

unfoldable pub stage1_kargs : Host → Str → Dict Str
unfolding ascii
stage1_kargs h server =
    (epoxy_key (ascii "stage2"), stage2_url h server)
    ∷ (epoxy_key (ascii "stage3"), stage3_url h server)
    ∷ (epoxy_key (ascii "report"), report_url h server)
    ∷ (epoxy_key (ascii "images_version"), h.images_version)
    ∷ []

abbrev chain_to : Str → V1
chain_to url = record { chain = url; vars = []; files = []; env = []; commands = [] }

-- CreateStage1Action and FormatJSONConfig, before the serialisation by `c.String()`.
unfoldable pub create_stage1_action : Host → Str → Config
create_stage1_action h server = record {
  kargs = extension_kargs h server h.extensions (stage1_kargs h server);
  v1 = some (chain_to (chain_url h stage1_json));
}

unfoldable pub format_json_config : Host → Str → Config
format_json_config h stage = record { kargs = []; v1 = some (chain_to (chain_url h stage)) }

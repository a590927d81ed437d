-- ===== src/Tests/Records.antt =====
-- Hosts, their storage, and the scripts that are made from them.
use epoxy.Base.{
  ℕ, Str, ascii, ◌==◌, ◌≡◌, refl, ◌↔◌, inl, Bool, true, false, Option, none, some, List, [], ◌∷◌,
  ◌++◌, Error, external, Outcome, ok, err, All, if◌then◌else◌, arith,
}
use epoxy.Base.Dict.{Dict, lookup, HasDistinctKeys}
use epoxy.Base.Exec.{◌>>=◌}
use epoxy.Go.Strings.{trim_space, join}
use epoxy.Go.Utf8.{valid_string}
use epoxy.Go.Base64
use epoxy.Storage.Host.{Runtime, generate_session_id, generate_session_ids}
use epoxy.Storage.Sessions.{AreSessionIds, generate_session_ids-AreSessionIds}
use epoxy.Storage.Information.{add_information}
use epoxy.Storage.Information.Laws.{accepted, or_else, lookup-add_information}
use epoxy.Storage.PropertyMap.{load, save}
use epoxy.Storage.PropertyMap.RoundTrip.{load-save}
use epoxy.Storage.Datastore.{new_datastore_config}
use epoxy.Storage.Datastore.Laws.{stored_by}
use epoxy.Handler.Store.{IsStore}
use epoxy.Handler.Backend.{host_config, host_config-IsStore}
use epoxy.Template.Scripts.{
  stage2_url, stage3_url, report_url, extension_url, epoxy_key, create_stage1_action, stage1_values,
  html_escape, format_stage1_ipxe_script, execute_stage1_ipxe, extension_urls, chain_url,
}
use epoxy.Template.Kargs.{contains, lookup-create_stage1_action}
use epoxy.Template.Escaping.{render, pieces, ShowsPlain, format_stage1_ipxe_script-eq_iff}
use epoxy.Tests.Entities.{Records, view, client, client-IsDatastore}
use epoxy.Tests.Backend.{known_ids, renewed, runtime, runtime-IsRuntime, host, hosts}

generate_session_ids-AreSessionIds_example :
    AreSessionIds known_ids
    × (renewed host ≡ record host { current_session_ids = known_ids; last_session_creation = 1000 })
unfolding generate_session_ids generate_session_id ◌>>=◌ Base64.encode ascii
generate_session_ids-AreSessionIds_example =
    generate_session_ids-AreSessionIds runtime runtime-IsRuntime host (renewed host) hosts refl

abbrev form : Dict (List Str)
form = (ascii "serial", ascii " abc " ∷ []) ∷ (ascii "other", ascii "x" ∷ []) ∷ []

form-HasDistinctKeys : HasDistinctKeys form
unfolding lookup ascii ◌==◌
form-HasDistinctKeys = (refl, (refl, tt))

lookup-add_information_example :
    lookup (ascii "serial") (add_information form host).collected_information
    ≡ or_else
        (accepted (ascii "serial") (lookup (ascii "serial") form))
        (lookup (ascii "serial") host.collected_information)
lookup-add_information_example =
    lookup-add_information form host (ascii "serial") form-HasDistinctKeys

add_information_tests :
    (add_information form host).collected_information ≡ (ascii "serial", ascii "abc") ∷ []
unfolding add_information valid_string trim_space join lookup ◌==◌ epoxy.Base.Dict.insert
add_information_tests = refl

boot-HasDistinctKeys : HasDistinctKeys host.boot
unfolding lookup ascii ◌==◌
boot-HasDistinctKeys = (refl, (refl, tt))

load-save_example :
    lookup (ascii "stage2") (load (save host.boot)) ≡ lookup (ascii "stage2") host.boot
load-save_example = load-save host.boot (ascii "stage2") boot-HasDistinctKeys

abbrev still : Runtime Records
still = record { rand_read = λ n w. (ok [], w); time_now = λ w. (ok 0, w) }

host_config-IsStore_example :
    IsStore
      (stored_by view (new_datastore_config client))
      (host_config (new_datastore_config client))
      still
unfolding new_datastore_config
host_config-IsStore_example =
    host_config-IsStore view (new_datastore_config client) still client-IsDatastore
      (record { rand_keeps = λ n w. refl; time_keeps = λ w. refl })

abbrev addr : Str
addr = ascii "epoxy.example.net"

lookup-create_stage1_action_example :
    lookup (epoxy_key (ascii "ext1")) (create_stage1_action host addr).kargs ≡ (
      if contains host.extensions (ascii "ext1")
      then some (extension_url host addr (ascii "ext1"))
      else if ascii "stage2" == ascii "ext1"
      then some (stage2_url host addr)
      else if ascii "stage3" == ascii "ext1"
      then some (stage3_url host addr)
      else if ascii "report" == ascii "ext1"
      then some (report_url host addr)
      else if ascii "images_version" == ascii "ext1"
      then some host.images_version
      else none)
lookup-create_stage1_action_example = lookup-create_stage1_action host addr (ascii "ext1")

format_stage1_ipxe_script-eq_iff_example :
    (format_stage1_ipxe_script host addr ≡ render (λ v. v) (pieces (stage1_values host addr)))
    ↔ ShowsPlain (pieces (stage1_values host addr))
format_stage1_ipxe_script-eq_iff_example = format_stage1_ipxe_script-eq_iff host addr

-- The script of template/template_test.go, for `host`.
script_tests :
    format_stage1_ipxe_script host addr
    ≡ ascii
        "#!ipxe\n\nset stage1chain_url https://example.com/latest/stage1to2.ipxe\nset stage2_url https://epoxy.example.net/v1/boot/mlab1/01234/stage2\nset stage3_url https://epoxy.example.net/v1/boot/mlab1/56789/stage3\nset report_url https://epoxy.example.net/v1/boot/mlab1/86420/report\nset images_version latest\nset ext1_url https://epoxy.example.net/v1/boot/mlab1/75319/extension/ext1\nset ext2_url https://epoxy.example.net/v1/boot/mlab1/75319/extension/ext2\n\nchain ${stage1chain_url}\n"
unfolding format_stage1_ipxe_script execute_stage1_ipxe stage1_values extension_urls extension_url
    stage2_url stage3_url report_url chain_url epoxy.Base.Dict.insert
    epoxy.Template.Scripts.boot_url lookup ascii ◌==◌ epoxy.Go.Strings.replace_first
    epoxy.Go.Strings.has_prefix epoxy.Go.Strings.drop
script_tests = refl

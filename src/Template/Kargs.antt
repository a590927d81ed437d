-- ===== src/Template/Kargs.antt =====
-- The kernel parameters of a stage1 action, and their agreement with the iPXE script.
use epoxy.Base.{
  Str, ascii, ◌==◌, eq_iff, ◌≡◌, refl, Bool, false, ◌||◌, none, some, List, [], ◌∷◌, arith,
  if◌then◌else◌,
}
use epoxy.Base.Dict.{Dict, lookup, insert, lookup-insert, lookup-nil}
use epoxy.Storage.Host.{Host}
use epoxy.Template.Scripts.{
  extension_url, extension_urls, extension_kargs, epoxy_key, stage1_kargs, stage1_values,
  stage2_url, stage3_url, report_url, create_stage1_action,
}

abbrev pub contains : List Str → Str → Bool
contains [] x = false
contains (y ∷ ys) x = y == x || contains ys x

lookup-extension_urls :
    (h : Host) (server : Str) (ops : List Str) (urls : Dict Str) (name : Str)
    → lookup name (extension_urls h server ops urls)
      ≡ (if contains ops name then some (extension_url h server name) else lookup name urls)
unfolding extension_urls
lookup-extension_urls h server [] urls name = refl
lookup-extension_urls h server (op ∷ ops) urls name = ground (
  arith,
  lookup-extension_urls h server ops (insert op (extension_url h server op) urls) name,
  lookup-insert op name (extension_url h server op) urls,
  eq_iff op name,
)

same_key : (a b : Str) → (epoxy_key a == epoxy_key b) ≡ (a == b)
unfolding ascii ◌==◌
same_key a b = refl

lookup-extension_kargs :
    (h : Host) (server : Str) (ops : List Str) (kargs : Dict Str) (name : Str)
    → lookup (epoxy_key name) (extension_kargs h server ops kargs) ≡ (
        if contains ops name
        then some (extension_url h server name)
        else lookup (epoxy_key name) kargs)
unfolding extension_kargs
lookup-extension_kargs h server [] kargs name = refl
lookup-extension_kargs h server (op ∷ ops) kargs name = ground (
  arith,
  lookup-extension_kargs h server ops (insert (epoxy_key op) (extension_url h server op) kargs)
      name,
  lookup-insert (epoxy_key op) (epoxy_key name) (extension_url h server op) kargs,
  same_key op name,
  eq_iff op name,
)

lookup-stage1_kargs :
    (h : Host) (server name : Str)
    → lookup (epoxy_key name) (stage1_kargs h server) ≡ (
        if ascii "stage2" == name
        then some (stage2_url h server)
        else if ascii "stage3" == name
        then some (stage3_url h server)
        else if ascii "report" == name
        then some (report_url h server)
        else if ascii "images_version" == name
        then some h.images_version
        else none)
lookup-stage1_kargs h server name = unfold stage1_kargs lookup in simp same_key

-- Every kernel parameter "epoxy.<name>" of a stage1 action: the URL of the extension where the
-- host has one of that name, or else one of the four fixed parameters. An extension named like a
-- fixed parameter hides it.
pub lookup-create_stage1_action :
    (h : Host) (server name : Str)
    → lookup (epoxy_key name) (create_stage1_action h server).kargs ≡ (
        if contains h.extensions name
        then some (extension_url h server name)
        else if ascii "stage2" == name
        then some (stage2_url h server)
        else if ascii "stage3" == name
        then some (stage3_url h server)
        else if ascii "report" == name
        then some (report_url h server)
        else if ascii "images_version" == name
        then some h.images_version
        else none)
unfolding create_stage1_action
lookup-create_stage1_action h server name = ground (
  arith,
  lookup-extension_kargs h server h.extensions (stage1_kargs h server) name,
  lookup-stage1_kargs h server name,
)

-- The two stage1 formats agree: an extension's URL in the values of the iPXE script is the kernel
-- parameter of that name in the JSON action.
stage1_formats_agree :
    (h : Host) (server name url : Str)
    → lookup name (stage1_values h server).extensions ≡ some url
    → lookup (epoxy_key name) (create_stage1_action h server).kargs ≡ some url
unfolding stage1_values create_stage1_action
stage1_formats_agree h server name url e = ground (
  arith,
  lookup-extension_kargs h server h.extensions (stage1_kargs h server) name,
  lookup-extension_urls h server h.extensions [] name,
  lookup-nil {V = Str} name,
)

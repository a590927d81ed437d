-- ===== src/Storage/Extensions.antt =====
-- storage/extensions.go: the extension operations and the URLs of their services.
use epoxy.Base.{Str, ascii, ◌==◌, [], ◌∷◌, if◌then◌else◌, not}
use epoxy.Base.Dict.{Dict}
use epoxy.Go.Strings.{replace_first}

unfoldable pub static_extensions : Dict Str
unfolding ascii
static_extensions =
    (
      ascii "allocate_k8s_token",
      ascii "http://epoxy-extension-server.%s.measurementlab.net:8800/v2/allocate_k8s_token",
    )
    ∷ (
      ascii "bmc_store_password",
      ascii "http://epoxy-extension-server.%s.measurementlab.net:8800/v1/bmc_store_password",
    )
    ∷ (
      ascii "test_op",
      ascii "http://soltesz-epoxy-testing-instance-1.c.%s.internal:8001/operation",
    )
    ∷ []

-- Sprintf(value, projectID): each value has one verb, "%s".
format_all : Str → Dict Str → Dict Str
unfolding ascii
format_all project [] = []
format_all project ((key, value) ∷ rest) =
    (key, replace_first value (ascii "%s") project) ∷ format_all project rest

-- `Extensions` after `init`, which reads the project from GCLOUD_PROJECT.
unfoldable pub extensions : Str → Dict Str
unfolding format_all static_extensions
extensions project =
    if not (project == []) then format_all project static_extensions else static_extensions

-- ===== src/Handler/Routes.antt =====
-- cmd/epoxy_boot_server/main.go: the handlers behind the routes, and the server over time: each
-- request comes with the route that it takes.
pub mod Setup
pub mod Router
use epoxy.Base.{Str, ascii, List, [], ◌∷◌, ok}
use epoxy.Base.Exec.{Exec, pure}
use epoxy.Handler.Server.{Request, Reply, content, Server, Context, Handler}
use epoxy.Handler.Boot.{
  generate_stage1_ipxe, generate_stage1_json, generate_json_config, receive_report,
}
use epoxy.Handler.Proxy.{handle_extension, handle_storage_proxy}

-- The routes of newRouter, by their handlers.
pub data Route : Type 0 where
  health stage1_ipxe stage1_json stage2 stage3 report extension storage : Route

-- checkHealth; net/http finds the type of the content.
unfoldable pub check_health : {W : Type 0} → Handler W
check_health = pure (content (ascii "text/plain; charset=utf-8") (ascii "ok"))

module _ {W : Type 0} (c : Context W) where
  unfoldable pub serve : Route → Request → Handler W
  serve health = λ req. check_health
  serve stage1_ipxe = generate_stage1_ipxe c
  serve stage1_json = generate_stage1_json c
  serve stage2 = generate_json_config c
  serve stage3 = generate_json_config c
  serve report = receive_report c
  serve extension = handle_extension c
  serve storage = handle_storage_proxy c

  -- The server after a sequence of requests. A panic ends only its own request.
  unfoldable pub serve_all : List (Route × Request) → Server W → Server W
  serve_all [] s = s
  serve_all ((route, req) ∷ rest) s = serve_all rest (serve route req s).1

-- ===== src/Handler/Routes/Router.antt =====
-- cmd/epoxy_boot_server/main.go: newRouter, and what its routes let through.
use epoxy.Base.{
  Str, ascii, ◌==◌, ◌≡◌, refl, Bool, true, false, not, Option, none, some, List, [], ◌∷◌, Outcome,
  ok, err, if◌then◌else◌,
}
use epoxy.Base.Dict.{Dict}
use epoxy.Base.Exec.{pure, lift, ◌>>=◌}
use epoxy.Handler.Server.{Url, Request, Reply, Server, Context, Handler}
use epoxy.Handler.Proxy.{handle_storage_proxy}
use epoxy.Handler.Routes.{
  Route, health, stage1_ipxe, stage1_json, stage2, stage3, report, extension, storage, check_health,
  serve,
}

-- A route of mux.Router: a method, a pattern of paths, and the handler.
pub record Entry : Type 0 where
  pub method : Str
  pub pattern : Str
  pub route : Route

-- Package mux: the variables of a path that matches a pattern, and the answer where no route fits.
pub record Mux : Type 0 where
  pub vars : Str → Str → Option (Dict Str)
  pub refusal : Request → Reply

unfoldable pub add_route : List Entry → Str → Str → Route → List Entry
add_route [] method pattern route =
    record { method = method; pattern = pattern; route = route } ∷ []
add_route (entry ∷ router) method pattern route = entry ∷ add_route router method pattern route

unfoldable pub new_router : List Entry
unfolding add_route ascii
new_router =
    let post = ascii "POST" in
    let boot = add_route [] (ascii "GET") (ascii "/_ah/health") health in
    let r₁ = add_route boot post (ascii "/v1/boot/{hostname}/stage1.ipxe") stage1_ipxe in
    let r₂ = add_route r₁ post (ascii "/v1/boot/{hostname}/stage1.json") stage1_json in
    let r₃ = add_route r₂ post (ascii "/v1/boot/{hostname}/{sessionID}/stage2") stage2 in
    let r₄ = add_route r₃ post (ascii "/v1/boot/{hostname}/{sessionID}/stage3") stage3 in
    let r₅ = add_route r₄ post (ascii "/v1/boot/{hostname}/{sessionID}/report") report in
    let r₆ =
      add_route r₅ post (ascii "/v1/boot/{hostname}/{sessionID}/extension/{operation}") extension in
    add_route r₆ (ascii "GET") (ascii "/v1/storage/{path:.*}") storage

module _ {W : Type 0} (mux : Mux) (c : Context W) where
  abbrev pub serve_matched : Option (Dict Str) → Route → Request → Handler W → Handler W
  serve_matched none route req next = next
  serve_matched (some vars) route req next = serve c route (record req { vars = vars })

  -- The first route of the method whose pattern matches the path.
  unfoldable pub dispatch : List Entry → Request → Handler W
  dispatch [] req = pure (mux.refusal req)
  dispatch (entry ∷ router) req =
      let next = dispatch router req in
      if req.method == entry.method
      then serve_matched (mux.vars entry.pattern req.url.path) entry.route req next
      else next

  unfoldable pub handle : Request → Handler W
  handle = dispatch new_router

-- A handler that leaves the server as it is.
abbrev Idle : {W : Type 0} → Handler W → Type 0
Idle {W} m = (s : Server W) → (m s).1 ≡ s

module _ {W : Type 0} (mux : Mux) (c : Context W) where
  lift-Idle :
      (r : Outcome Reply Url) (f : Url → Reply) (s : Server W)
      → ((lift r >>= λ url. pure (f url)) s).1 ≡ s
  unfolding ◌>>=◌
  lift-Idle (ok url) f s = refl
  lift-Idle (err e) f s = refl

  Idle-if : (b : Bool) (x y : Handler W) → Idle x → Idle y → Idle (if b then x else y)
  Idle-if true x y idle idle' = idle
  Idle-if false x y idle idle' = idle'

  handle_storage_proxy-Idle : (req : Request) → Idle (handle_storage_proxy c req)
  unfolding handle_storage_proxy
  handle_storage_proxy-Idle req =
      Idle-if (c.env.storage_prefix_url == []) _ _ (λ s. refl)
        (Idle-if (not (req.method == ascii "GET")) _ _ (λ s. refl) (lift-Idle _ _))

  matched-Idle :
      (o : Option (Dict Str)) (route : Route) (req : Request) (next : Handler W)
      → ((r : Request) → Idle (serve c route r))
      → Idle next
      → Idle (serve_matched mux c o route req next)
  matched-Idle none route req next served idle = idle
  matched-Idle (some vars) route req next served idle = served _

  -- A GET request, whatever path it has, leaves the server as it is: the records, and the counter
  -- of boots.
  pub handle-get :
      (req : Request) (s : Server W) → req.method ≡ ascii "GET" → (handle mux c req s).1 ≡ s
  unfolding handle dispatch new_router serve check_health ascii ◌==◌
  handle-get req s get = rw get (
      matched-Idle _ health _ _ (λ r s. refl)
        (matched-Idle _ storage _ _ handle_storage_proxy-Idle (λ s. refl)) s)

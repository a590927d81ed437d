-- ===== src/Handler/Routes/Setup.antt =====
-- cmd/epoxy_boot_server/main.go and handler/handler.go: the setup of hosts while requests come in.
use epoxy.Base.{
  Str, ascii, ◌≡◌, ◌⊎◌, inl, inr, refl, sym, ap, ◌∙◌, Option, none, some, Outcome, ok, err, List,
  [], ◌∷◌,
}
use epoxy.Base.Exec.Ensures.{Ends, Ensures, Ensures-weaken}
use epoxy.Storage.Host.{Host}
use epoxy.Storage.Sessions.{IsRuntime}
use epoxy.Handler.Server.{Request, Reply, Server, Context, hostname, first_value}
use epoxy.Handler.Store.{IsStore, SameSetup}
use epoxy.Handler.Setup.{SameSetup-trans, SameSetup-refl, SameSetup-reported}
use epoxy.Handler.Steps.{View, IsRewritten, Touched, View-Touched, Replaced-Touched}
use epoxy.Handler.Outcomes.{
  generate_stage1_ipxe-Ensures, generate_stage1_json-Ensures, generate_json_config-Ensures,
  receive_report-Ensures,
}
use epoxy.Handler.Forwarding.{handle_extension-Ensures, handle_storage_proxy-Ensures}
use epoxy.Handler.Routes.{
  Route, health, stage1_ipxe, stage1_json, stage2, stage3, report, extension, storage, check_health,
  serve, serve_all,
}

-- Every record is stored under its own name.
abbrev pub IsKeyed : (Str → Option Host) → Type 0
IsKeyed v = (j : Str) (h : Host) → v j ≡ some h → h.name ≡ j

-- A record may become one of the same setup; a missing one stays missing.
abbrev pub Evolves : Option Host → Option Host → Type 0
Evolves none after = after ≡ none
Evolves (some h) after = (h' : Host) × (after ≡ some h') × SameSetup h h'

Evolves-refl : (o : Option Host) → Evolves o o
Evolves-refl none = refl
Evolves-refl (some h) = (h, refl, SameSetup-refl h)

Evolves-trans : (a b c : Option Host) → Evolves a b → Evolves b c → Evolves a c
Evolves-trans none b c p q = rw p at q
Evolves-trans (some h) b c (h', e, p) q =
    let (h'', e', p') = let q' : Evolves (some h') c = rw e at q in q' in
    (h'', e', SameSetup-trans p p')

module _ {W : Type 0} (c : Context W) (stored : W → Str → Option Host)
    (laws : IsStore stored c.env.config c.runtime) (good : IsRuntime c.runtime) where
  module _ (v : Str → Option Host) where
    serve-Touched :
        (route : Route) (req : Request)
        → Ensures
            (View c stored laws good v)
            (serve c route req)
            (λ _ s. Touched c stored laws good v req s)
            (λ _ s. Touched c stored laws good v req s)
    unfolding serve check_health
    serve-Touched health req = record { at = λ s h. View-Touched c stored laws good v req s h }
    serve-Touched stage1_ipxe req =
        Ensures-weaken (generate_stage1_ipxe-Ensures c stored laws good v req) (λ s h. h)
          (λ r s b.
            Replaced-Touched c stored laws good v req s b.old b.new b.authorised b.setup b.saved)
          (λ r s t. t)
    serve-Touched stage1_json req =
        Ensures-weaken (generate_stage1_json-Ensures c stored laws good v req) (λ s h. h)
          (λ r s b.
            Replaced-Touched c stored laws good v req s b.old b.new b.authorised b.setup b.saved)
          (λ r s t. t)
    serve-Touched stage2 req =
        Ensures-weaken (generate_json_config-Ensures c stored laws good v req) (λ s h. h)
          (λ r s b. View-Touched c stored laws good v req s b.unchanged) (λ r s t. t)
    serve-Touched stage3 req =
        Ensures-weaken (generate_json_config-Ensures c stored laws good v req) (λ s h. h)
          (λ r s b. View-Touched c stored laws good v req s b.unchanged) (λ r s t. t)
    serve-Touched report req =
        Ensures-weaken (receive_report-Ensures c stored laws good v req) (λ s h. h)
          (λ r s b.
            Replaced-Touched c stored laws good v req s b.old _ b.authorised
              (SameSetup-reported (first_value (ascii "message") req.post_form) b.now b.old)
              b.saved)
          (λ r s t. t)
    serve-Touched extension req =
        Ensures-weaken (handle_extension-Ensures c stored laws good v req) (λ s h. h)
          (λ r s b. View-Touched c stored laws good v req s b.unchanged) (λ r s t. t)
    serve-Touched storage req =
        Ensures-weaken (handle_storage_proxy-Ensures c stored laws good v req) (λ s h. h)
          (λ r s b. View-Touched c stored laws good v req s b.unchanged) (λ r s t. t)

    module _ (keyed : IsKeyed v) (req : Request) (s : Server W)
        (touched : Touched c stored laws good v req s) where
      Evolves-at :
          (j : Str)
          → (stored s.world j ≡ v j) ⊎ IsRewritten c stored laws good v req s j
          → Evolves (v j) (stored s.world j)
      Evolves-at j (inl same) = rw same (Evolves-refl (v j))
      Evolves-at j (inr r) =
          let here : j ≡ hostname req =
            sym r.name ∙ r.setup.name ∙ keyed (hostname req) r.old r.authorised.loaded in
          rw (ap v here ∙ r.authorised.loaded) (r.new, r.saved, r.setup)

      name_at :
          (j : Str) (h : Host)
          → stored s.world j ≡ some h
          → (stored s.world j ≡ v j) ⊎ IsRewritten c stored laws good v req s j
          → h.name ≡ j
      name_at j h e (inl same) = keyed j h (sym same ∙ e)
      name_at j h e (inr r) =
          let same : h ≡ r.new = cc (sym e ∙ r.saved) in ap (λ (x : Host). x.name) same ∙ r.name

      step : IsKeyed (stored s.world) × ((j : Str) → Evolves (v j) (stored s.world j))
      step = (λ j h e. name_at j h e (touched j), λ j. Evolves-at j (touched j))

  Ends-both :
      (Q : Server W → Type 0) (r : Outcome Reply Reply) (s : Server W)
      → Ends (λ _. Q) (λ _. Q) r s
      → Q s
  Ends-both Q (ok a) s h = h
  Ends-both Q (err e) s h = h

  serve_step :
      (route : Route) (req : Request) (s : Server W)
      → IsKeyed (stored s.world)
      → IsKeyed (stored (serve c route req s).1.world)
        × ((j : Str) → Evolves (stored s.world j) (stored (serve c route req s).1.world j))
  serve_step route req s keyed =
      let v = stored s.world in
      let (r, s') = serve c route req s in
      step v keyed req s'
        (Ends-both (Touched c stored laws good v req) r s' ((serve-Touched v route req).at s refl))

  -- If every record is stored under its own name, that stays so whatever requests clients send,
  -- and every host keeps its name, its address, both boot sequences, its images version and its
  -- extensions; a disabled update stays disabled, and no record appears or vanishes. The storage
  -- has the laws `IsStore`, and the source of random bytes those of `IsRuntime`.
  pub serve_all_setup :
      (requests : List (Route × Request)) (s : Server W)
      → IsKeyed (stored s.world)
      → IsKeyed (stored (serve_all c requests s).world)
        × ((j : Str) → Evolves (stored s.world j) (stored (serve_all c requests s).world j))
  unfolding serve_all
  serve_all_setup [] s keyed = (keyed, λ j. Evolves-refl (stored s.world j))
  serve_all_setup ((route, req) ∷ rest) s keyed =
      let (keyed', once) = serve_step route req s keyed in
      let (keyed'', later) = serve_all_setup rest (serve c route req s).1 keyed' in
      (keyed'', λ j. Evolves-trans _ _ _ (once j) (later j))

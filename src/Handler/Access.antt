-- ===== src/Handler/Access.antt =====
-- handler/handler.go: whether a request comes from the host that it names.
pub mod Laws
use epoxy.Base.{
  Str, ascii, ◌==◌, Bool, not, ◌&&◌, List, [], ◌∷◌, Error, cannot_access_host, Outcome, ok, err,
  Result, leb, length, if◌then◌else◌,
}
use epoxy.Go.Strings.{split}
use epoxy.Storage.Host.{Host}
use epoxy.Handler.Server.{Env, Request, Net, first_value}

-- fwdIPs[0]: Split returns at least one piece.
abbrev pub first : List Str → Str
first [] = []
first (ip ∷ ips) = ip

unfoldable pub forwarded_ips : Request → List Str
unfolding ascii split first_value
forwarded_ips req = split (first_value (ascii "X-Forwarded-For") req.header) (ascii ", ")

module _ (net : Net) where
  unfoldable pub extract_ip : Str → Result Str
  extract_ip remote_addr = elim (net.parse (b'/' ∷ b'/' ∷ remote_addr)) [
    | ok u ↦ ok (net.hostname u)
    | err e ↦ err e
  ]

  unfoldable pub request_is_from_host : {W : Type 0} → Env W → Request → Host → Result (Unit {0})
  request_is_from_host env req host =
      let fwd_ips = forwarded_ips req in
      if env.allow_forwarded_requests && leb (length fwd_ips) 2 && first fwd_ips == host.ipv4_addr
      then ok tt
      else elim (extract_ip req.remote_addr) [
        | err e ↦ err cannot_access_host
        | ok remote_ip ↦
            if not env.allow_forwarded_requests && remote_ip == host.ipv4_addr
            then ok tt
            else err cannot_access_host
      ]

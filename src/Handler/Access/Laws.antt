-- ===== src/Handler/Access/Laws.antt =====
-- handler/handler.go: when requestIsFromHost lets a request through.
use epoxy.Base.{
  ◌≤◌, Str, eq_iff, ◌≡◌, ◌⊎◌, ◌↔◌, inl, inr, refl, true, false, ok, err, Result, length, arith,
  Bool-cases,
}
use epoxy.Storage.Host.{Host}
use epoxy.Handler.Server.{Env, Request, Net}
use epoxy.Handler.Access.{first, forwarded_ips, extract_ip, request_is_from_host}

-- A request is let through exactly when its origin has the host's address, where the origin is the
-- first of at most two addresses in X-Forwarded-For if the server trusts forwarded requests, and
-- the remote address of the connection if it does not.
pub request_is_from_host_iff :
    {W : Type 0} (net : Net) (env : Env W) (req : Request) (host : Host)
    → (request_is_from_host net env req host ≡ ok tt) ↔ (
        ((env.allow_forwarded_requests ≡ true)
          × (length (forwarded_ips req) ≤ 2)
          × (first (forwarded_ips req) ≡ host.ipv4_addr))
        ⊎ ((env.allow_forwarded_requests ≡ false)
            × (extract_ip net req.remote_addr ≡ ok host.ipv4_addr)))
unfolding request_is_from_host
request_is_from_host_iff net env req host =
    let same = eq_iff (first (forwarded_ips req)) host.ipv4_addr in
    (
      λ h. elim (Bool-cases env.allow_forwarded_requests) [
        | inl on ↦ inl (on, (trusted on h).0, (trusted on h).1)
        | inr off ↦ inr (off, direct off h)
      ],
      λ h. elim h [
        | inl (on, few, e) ↦ ground (arith, same)
        | inr (off, e) ↦ ground (arith, eq_iff host.ipv4_addr host.ipv4_addr)
      ],
    )
  where
    trusted :
        env.allow_forwarded_requests ≡ true
        → request_is_from_host net env req host ≡ ok tt
        → (length (forwarded_ips req) ≤ 2) × (first (forwarded_ips req) ≡ host.ipv4_addr)
    trusted on h = ground (arith, eq_iff (first (forwarded_ips req)) host.ipv4_addr)

    from_remote :
        (r : Result Str)
        → extract_ip net req.remote_addr ≡ r
        → env.allow_forwarded_requests ≡ false
        → request_is_from_host net env req host ≡ ok tt
        → r ≡ ok host.ipv4_addr
    from_remote (ok ip) e off h = ground (arith, eq_iff ip host.ipv4_addr)
    from_remote (err x) e off h = ground arith

    direct :
        env.allow_forwarded_requests ≡ false
        → request_is_from_host net env req host ≡ ok tt
        → extract_ip net req.remote_addr ≡ ok host.ipv4_addr
    direct off h = from_remote (extract_ip net req.remote_addr) refl off h

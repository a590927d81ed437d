-- ===== src/Certs/Names.antt =====
-- cmd/epoxy_certs/main.go: addHostsToCertificate.
use epoxy.Base.{
  Str, ◌==◌, ◌≡◌, refl, ap, Option, none, some, Bool, true, false, List, [], ◌∷◌, ◌++◌,
  if◌then◌else◌,
}
use epoxy.Certs.System.{Certificate, System}

module _ {W Time Duration Ip Parsed PrivateKey : Type 0}
    (sys : System W Time Duration Ip Parsed PrivateKey) where
  add_name : Str → Option Ip → Certificate Time Ip → Certificate Time Ip
  add_name h (some ip) cert = record cert { ip_addresses = cert.ip_addresses ++ (ip ∷ []) }
  add_name h none cert = record cert { dns_names = cert.dns_names ++ (h ∷ []) }

  -- The loop changes the certificate that it is given.
  unfoldable pub add_hosts_to_certificate : Certificate Time Ip → List Str → Certificate Time Ip
  unfolding add_name
  add_hosts_to_certificate cert [] = cert
  add_hosts_to_certificate cert (h ∷ hostnames) =
      let skipped = add_hosts_to_certificate cert hostnames in
      let added = add_hosts_to_certificate (add_name h (sys.parse_ip h) cert) hostnames in
      if h == [] then skipped else added

  -- The names that are addresses, and those that are not and not empty, in their order.
  abbrev keep_address : Option Ip → List Ip → List Ip
  keep_address none rest = rest
  keep_address (some ip) rest = ip ∷ rest

  abbrev keep_name : Option Ip → Str → List Str → List Str
  keep_name none h rest = h ∷ rest
  keep_name (some ip) h rest = rest

  abbrev pub addresses : List Str → List Ip
  addresses [] = []
  addresses (h ∷ hostnames) =
      let rest = addresses hostnames in if h == [] then rest else keep_address (sys.parse_ip h) rest

  abbrev pub names : List Str → List Str
  names [] = []
  names (h ∷ hostnames) =
      let rest = names hostnames in if h == [] then rest else keep_name (sys.parse_ip h) h rest

  append_nil : {A : Type 0} (xs : List A) → xs ++ [] ≡ xs
  append_nil [] = refl
  append_nil (x ∷ xs) = ap (λ tail. x ∷ tail) (append_nil xs)

  append_one :
      {A : Type 0} (xs : List A) (x : A) (ys : List A) → (xs ++ (x ∷ [])) ++ ys ≡ xs ++ (x ∷ ys)
  append_one [] x ys = refl
  append_one (z ∷ xs) x ys = ap (λ tail. z ∷ tail) (append_one xs x ys)

  -- `cert` with these added.
  abbrev pub with_names : Certificate Time Ip → List Ip → List Str → Certificate Time Ip
  with_names cert ips dns = record cert {
    ip_addresses = cert.ip_addresses ++ ips;
    dns_names = cert.dns_names ++ dns;
  }

  -- Each name is added once and in its order, to the addresses where it is one, to the DNS names where
  -- it is not and is not empty; nothing else of the certificate changes.
  pub add_hosts_to_certificate_lem :
      (cert : Certificate Time Ip) (hostnames : List Str)
      → add_hosts_to_certificate cert hostnames
        ≡ with_names cert (addresses hostnames) (names hostnames)
  unfolding add_hosts_to_certificate add_name
  add_hosts_to_certificate_lem cert [] = simp append_nil
  add_hosts_to_certificate_lem cert (h ∷ hostnames) =
      step (h == []) (sys.parse_ip h) (λ c. add_hosts_to_certificate_lem c hostnames)
    where
      step :
          (empty : Bool) (o : Option Ip)
          → ((c : Certificate Time Ip)
              → add_hosts_to_certificate c hostnames
                ≡ with_names c (addresses hostnames) (names hostnames))
          → (if empty
              then add_hosts_to_certificate cert hostnames
              else add_hosts_to_certificate (add_name h o cert) hostnames)
            ≡ with_names cert
                (if empty then addresses hostnames else keep_address o (addresses hostnames))
                (if empty then names hostnames else keep_name o h (names hostnames))
      step true o rest = rest cert
      step false none rest = rw (rest (add_name h none cert)) (simp append_one)
      step false (some ip) rest = rw (rest (add_name h (some ip) cert)) (simp append_one)

-- ===== src/Certs/Basic.antt =====
-- cmd/epoxy_certs/main.go: parseStartDate and getBasicCertificate.
use epoxy.Base.{Str, ◌==◌, true, false, not, List, [], ◌∷◌, ok, if◌then◌else◌}
use epoxy.Base.Exec.{Exec, ◌>>=◌, pure, lift}
use epoxy.Certs.System.{Certificate, Flags, sha256_with_rsa, System, Stop, must}
use epoxy.Certs.Names.{add_hosts_to_certificate}
use epoxy.Certs.Serial.{get_serial_number}

module _ {W Time Duration Ip Parsed PrivateKey : Type 0}
    (sys : System W Time Duration Ip Parsed PrivateKey) where
  -- Without a date, 48 hours ago.
  unfoldable pub parse_start_date : Str → Exec W Stop Time
  parse_start_date date w =
      let (t, w') = sys.now w in
      if date == []
      then (ok (sys.add t (sys.minus_hours 48)), w')
      else must (lift (sys.parse_date date)) w

  unfoldable pub get_basic_certificate :
      Flags Duration → Str → List Str → Exec W Stop (Certificate Time Ip)
  get_basic_certificate flags hostname extra_hostnames = do
    not_before ← parse_start_date flags.start_date
    serial ← get_serial_number sys
    let c : Certificate Time Ip = record {
      serial_number = serial;
      organization = flags.org_name ∷ [];
      common_name = [];
      not_before = not_before;
      not_after = sys.add not_before flags.valid_for;
      basic_constraints_valid = true;
      signature_algorithm = sha256_with_rsa;
      key_usage = [];
      ext_key_usage = [];
      is_ca = false;
      max_path_len = 0;
      max_path_len_zero = false;
      ip_addresses = [];
      dns_names = [];
    }
    let named : Certificate Time Ip =
        if not (hostname == [])
        then add_hosts_to_certificate sys (record c { common_name = hostname }) (hostname ∷ [])
        else c
    pure (add_hosts_to_certificate sys named extra_hostnames)

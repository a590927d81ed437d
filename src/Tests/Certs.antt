-- ===== src/Tests/Certs.antt =====
-- The tool cmd/epoxy_certs, over a file system that is a map.
use epoxy.Base.{
  ℕ, Str, ascii, inl, inr, ◌==◌, eq_iff, ◌≡◌, ◌≢◌, ◌≤◌, ◌<◌, refl, sym, ◌∙◌, Option, none, some,
  true, false, List, [], ◌∷◌, Error, external, Outcome, ok, if◌then◌else◌, arith, Bool-cases,
}
use epoxy.Base.Dict.{Dict, lookup, insert, lookup-insert}
use epoxy.Certs.System.{Certificate, Civil, Flags, System, Stop}
use epoxy.Certs.Reader.{read_cert_file_old, read_cert_file, Agree, read_cert_file_agrees}
use epoxy.Certs.Names.{
  add_hosts_to_certificate, addresses, names, with_names, add_hosts_to_certificate_lem,
}
use epoxy.Certs.Serial.{get_serial_number, IsCivil, get_serial_number_lem}
use epoxy.Certs.Main.{check_flags, main}
use epoxy.Certs.Main.Frame.{IsFileSystem, is_output, main_keeps}

abbrev Files : Type 0
Files = Dict Str

abbrev date : Civil
date = record { year = 2026; month = 11; day = 25; hour = 21; minute = 5; second = 9 }

abbrev flags : Flags ℕ
flags = record {
  hostname = ascii "epoxy";
  extra_hostnames = [];
  start_date = [];
  valid_for = 8760;
  org_name = ascii "M-Lab";
  bit_size = 2048;
  ca_cert_file = ascii "ca-cert.pem";
  ca_key_file = ascii "ca-key.pem";
  server_cert_file = ascii "server-cert.pem";
  server_key_file = ascii "server-key.pem";
  client_issuer_cert_file = ascii "clientca-cert.pem";
  client_issuer_key_file = ascii "clientca-key.pem";
  client_cert_file = ascii "client-cert.pem";
  client_key_file = ascii "client-key.pem";
}

abbrev read_result : Option Str → Str × Option Error
read_result none = ([], some (external (ascii "no such file")))
read_result (some bytes) = (bytes, none)

-- A key is a number, a PEM file is its bytes, an address is a name that begins with a digit 1.
abbrev sys : System Files ℕ ℕ Str Str ℕ
sys = record {
  read_file = λ file w. (read_result (lookup file w), w);
  create = λ file w. (ok tt, insert file [] w);
  encode_pem = λ file label bytes w. (ok tt, insert file bytes w);
  close = λ file w. w;
  decode_pem = λ bytes. some bytes;
  parse_certificate = λ der. (some der, none);
  parse_pkcs1_private_key = λ der. ok 7;
  marshal_pkcs1_private_key = λ key. key ∷ [];
  generate_key = λ bits w. (ok bits, w);
  create_certificate = λ c parent key signer_key w. (ok c.common_name, w);
  parse_ip = λ name. elim name [
    | [] ↦ none
    | c ∷ rest ↦ if (c ∷ []) == ascii "1" then some (c ∷ rest) else none
  ];
  now = λ w. (100, w);
  civil = λ t. date;
  add = λ t d. t;
  minus_hours = λ h. h;
  parse_date = λ text. ok 0;
  parse_flags = λ args. ok flags;
}

date-IsCivil : IsCivil date
date-IsCivil = record {
  year_fits = omega arith;
  month_starts = omega arith;
  month_fits = omega arith;
  day_fits = omega arith;
  hour_fits = omega arith;
  minute_fits = omega arith;
  second_fits = omega arith;
}

abbrev stored : Files
stored = (ascii "ca-cert.pem", ascii "der") ∷ []

read_cert_file_agrees_example :
    Agree sys
      (read_cert_file_old sys (ascii "ca-cert.pem") stored).0
      (read_cert_file sys (ascii "ca-cert.pem") stored).0
    × ((read_cert_file sys (ascii "ca-cert.pem") stored).1
        ≡ (read_cert_file_old sys (ascii "ca-cert.pem") stored).1)
read_cert_file_agrees_example = read_cert_file_agrees sys (ascii "ca-cert.pem") stored

abbrev blank : Certificate ℕ Str
blank = record {
  serial_number = 1;
  organization = [];
  common_name = [];
  not_before = 0;
  not_after = 0;
  basic_constraints_valid = true;
  signature_algorithm = epoxy.Certs.System.sha256_with_rsa;
  key_usage = [];
  ext_key_usage = [];
  is_ca = false;
  max_path_len = 0;
  max_path_len_zero = false;
  ip_addresses = [];
  dns_names = [];
}

add_hosts_to_certificate_lem_example :
    add_hosts_to_certificate sys blank (ascii "a" ∷ [] ∷ ascii "192.0.2.1" ∷ [])
    ≡ with_names sys blank
        (addresses sys (ascii "a" ∷ [] ∷ ascii "192.0.2.1" ∷ []))
        (names sys (ascii "a" ∷ [] ∷ ascii "192.0.2.1" ∷ []))
add_hosts_to_certificate_lem_example =
    add_hosts_to_certificate_lem sys blank (ascii "a" ∷ [] ∷ ascii "192.0.2.1" ∷ [])

get_serial_number_lem_example :
    (get_serial_number sys [] ≡ (ok 20_261_125_210_509, []))
    × (1 ≤ 20_261_125_210_509)
    × (20_261_125_210_509 < 100_000_000_000_000)
get_serial_number_lem_example = get_serial_number_lem sys [] date-IsCivil

other_file :
    (file n bytes : Str) (w : Files) → n ≢ file → lookup n (insert file bytes w) ≡ lookup n w
other_file file n bytes w other = elim (Bool-cases (file == n)) [
  | inl e ↦ elim (other (sym ((eq_iff file n).0 e))) [ ]
  | inr e ↦ lookup-insert file n bytes w ∙ rw e refl
]

sys-IsFileSystem : IsFileSystem (λ w n. lookup n w) sys
sys-IsFileSystem = record {
  read_keeps = λ file w. refl;
  create_keeps = λ file n w other. other_file file n [] w other;
  encode_keeps = λ file label bytes n w other. other_file file n bytes w other;
  close_keeps = λ file w. refl;
  generate_keeps = λ bits w. refl;
  sign_keeps = λ c parent key signer_key w. refl;
  now_keeps = λ w. refl;
}

abbrev server_args : List Str
server_args = ascii "epoxy_certs" ∷ ascii "server" ∷ []

spared :
    (p q : Str × Flags ℕ) (n : Str)
    → ◌≡◌ {A = Outcome Stop (Str × Flags ℕ)} (ok p) (ok q)
    → is_output p.0 p.1 n ≡ false
    → is_output q.0 q.1 n ≡ false
spared p q n e other = let same : p ≡ q = cc in rw (← same) other

server_spares_ca :
    (opt : Str) (f : Flags ℕ)
    → check_flags sys server_args ≡ ok (opt, f)
    → is_output opt f (ascii "ca-cert.pem") ≡ false
unfolding check_flags ascii ◌==◌
server_spares_ca opt f e = spared (ascii "server", flags) (opt, f) (ascii "ca-cert.pem") e refl

main_keeps_example :
    lookup (ascii "ca-cert.pem") (main sys server_args stored).1
    ≡ lookup (ascii "ca-cert.pem") stored
main_keeps_example =
    main_keeps (λ w n. lookup n w) sys sys-IsFileSystem server_args stored (ascii "ca-cert.pem")
      server_spares_ca

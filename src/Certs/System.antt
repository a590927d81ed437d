-- ===== src/Certs/System.antt =====
-- What cmd/epoxy_certs uses of packages os, time, net, flag, encoding/pem, crypto/rsa and crypto/x509.
use epoxy.Base.{ℕ, Str, Bool, Option, List, Error, Outcome, ok, err, Result, ◌⊎◌}
use epoxy.Base.Exec.{Exec}

-- x509.SignatureAlgorithm, x509.KeyUsage and x509.ExtKeyUsage, as far as they are used.
pub data SignatureAlgorithm : Type 0 where
  unknown_signature_algorithm sha256_with_rsa : SignatureAlgorithm

pub data KeyUsage : Type 0 where
  key_usage_cert_sign key_usage_crl_sign key_usage_key_encipherment key_usage_digital_signature :
      KeyUsage

pub data ExtKeyUsage : Type 0 where
  ext_key_usage_server_auth ext_key_usage_client_auth : ExtKeyUsage

-- The fields of a template that are set. A set of flags is a list.
pub record Certificate (Time Ip : Type 0) : Type 0 where
  pub serial_number : ℕ
  pub organization : List Str
  pub common_name : Str
  pub not_before : Time
  pub not_after : Time
  pub basic_constraints_valid : Bool
  pub signature_algorithm : SignatureAlgorithm
  pub key_usage : List KeyUsage
  pub ext_key_usage : List ExtKeyUsage
  pub is_ca : Bool
  pub max_path_len : ℕ
  pub max_path_len_zero : Bool
  pub ip_addresses : List Ip
  pub dns_names : List Str

-- The date and the time of day of a time.Time.
pub record Civil : Type 0 where
  pub year : ℕ
  pub month : ℕ
  pub day : ℕ
  pub hour : ℕ
  pub minute : ℕ
  pub second : ℕ

pub record Flags (Duration : Type 0) : Type 0 where
  pub hostname : Str
  pub extra_hostnames : Str
  pub start_date : Str
  pub valid_for : Duration
  pub org_name : Str
  pub bit_size : ℕ
  pub ca_cert_file : Str
  pub ca_key_file : Str
  pub server_cert_file : Str
  pub server_key_file : Str
  pub client_issuer_cert_file : Str
  pub client_issuer_key_file : Str
  pub client_cert_file : Str
  pub client_key_file : Str

-- Files are named, also those that are open. `Parsed` is the type of certificates that were read.
pub record System (W Time Duration Ip Parsed PrivateKey : Type 0) : Type 0 where
  pub read_file : Str → W → (Str × Option Error) × W
  pub create : Str → Exec W Error (Unit {0})
  pub encode_pem : Str → Str → Str → Exec W Error (Unit {0})
  pub close : Str → W → W
  pub decode_pem : Str → Option Str
  pub parse_certificate : Str → Option Parsed × Option Error
  pub parse_pkcs1_private_key : Str → Result PrivateKey
  pub marshal_pkcs1_private_key : PrivateKey → Str
  pub generate_key : ℕ → Exec W Error PrivateKey
  pub create_certificate :
      Certificate Time Ip
      → Certificate Time Ip ⊎ Parsed
      → PrivateKey
      → PrivateKey
      → Exec W Error Str
  pub parse_ip : Str → Option Ip
  pub now : W → Time × W
  pub civil : Time → Civil
  pub add : Time → Duration → Time
  pub minus_hours : ℕ → Duration
  pub parse_date : Str → Result Time
  pub parse_flags : List Str → Result (Flags Duration)

-- How the process ends early: exit status 1 with a message or the usage, or a panic.
pub data Stop : Type 0 where
  usage : Stop
  fatal : Error → Stop
  index_out_of_range : Stop

abbrev fatal_on : {A : Type 0} → Outcome Error A → Outcome Stop A
fatal_on (ok value) = ok value
fatal_on (err e) = err (fatal e)

module _ {W A : Type 0} where
  -- if err != nil { log.Fatalf(...) }
  abbrev pub must : Exec W Error A → Exec W Stop A
  must m w = let (r, w') = m w in (fatal_on r, w')

  -- A call whose results are dropped.
  abbrev pub ignoring : Exec W Error A → Exec W Stop (Unit {0})
  ignoring m w = (ok tt, (m w).1)

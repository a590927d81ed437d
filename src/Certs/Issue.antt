-- ===== src/Certs/Issue.antt =====
-- cmd/epoxy_certs/main.go: keys are made, and certificates are made and signed.
use epoxy.Base.{
  Str, true, [], ◌∷◌, ◌++◌, inl, inr, Option, none, some, Error, nil_dereference, Outcome, ok, err,
}
use epoxy.Base.Exec.{Exec, ◌>>=◌, ◌>>◌}
use epoxy.Certs.System.{
  Certificate, Flags, key_usage_cert_sign, key_usage_crl_sign, key_usage_key_encipherment,
  key_usage_digital_signature, ext_key_usage_server_auth, ext_key_usage_client_auth, System, Stop,
  must, ignoring,
}
use epoxy.Certs.Reader.{read_cert_file}
use epoxy.Certs.Files.{read_rsa_key_file, write_cert_file, write_rsa_key_file}

module _ {W Time Duration Ip Parsed PrivateKey : Type 0}
    (sys : System W Time Duration Ip Parsed PrivateKey) (flags : Flags Duration) where
  -- The two writes at the end; what they return is dropped.
  unfoldable pub write_both : Str → PrivateKey → Str → Str → Exec W Stop (Unit {0})
  write_both der key cert_file key_file = do
    ignoring (write_cert_file sys der cert_file)
    ignoring (write_rsa_key_file sys key key_file)

  unfoldable pub self_sign_cert : Certificate Time Ip → Str → Str → Exec W Stop (Unit {0})
  self_sign_cert c cert_file key_file = do
    key ← must (sys.generate_key flags.bit_size)
    der ← must (sys.create_certificate c (inl c) key key)
    write_both der key cert_file key_file

  -- The certificate of the signer, with the error of ReadCertFile. That it is not nil without an error
  -- is so of x509.ParseCertificate; a nil one is a panic.
  given : Option Parsed × Option Error → Outcome Error Parsed
  given (cert, some e) = err e
  given (some cert, none) = ok cert
  given (none, none) = err nil_dereference

  unfoldable pub signer : Str → Exec W Error Parsed
  unfolding given
  signer file w = let (r, w') = read_cert_file sys file w in (given r, w')

  unfoldable pub sign_cert : Certificate Time Ip → Str → Str → Str → Str → Exec W Stop (Unit {0})
  sign_cert c cert_file key_file signer_cert_file signer_key_file = do
    signer_cert ← must (signer signer_cert_file)
    signer_key ← must (read_rsa_key_file sys signer_key_file)
    key ← must (sys.generate_key flags.bit_size)
    der ← must (sys.create_certificate c (inr signer_cert) key signer_key)
    write_both der key cert_file key_file

  unfoldable pub create_root_ca_cert : Certificate Time Ip → Exec W Stop (Unit {0})
  create_root_ca_cert c =
      self_sign_cert
        (record c {
          key_usage = key_usage_cert_sign ∷ key_usage_crl_sign ∷ [];
          is_ca = true;
          max_path_len = 1;
        })
        flags.ca_cert_file flags.ca_key_file

  unfoldable pub create_server_cert : Certificate Time Ip → Exec W Stop (Unit {0})
  create_server_cert c =
      sign_cert
        (record c {
          key_usage = key_usage_key_encipherment ∷ key_usage_digital_signature ∷ [];
          ext_key_usage = c.ext_key_usage ++ (ext_key_usage_server_auth ∷ []);
        })
        flags.server_cert_file flags.server_key_file flags.ca_cert_file flags.ca_key_file

  unfoldable pub create_issuer_client_cert : Certificate Time Ip → Exec W Stop (Unit {0})
  create_issuer_client_cert c =
      sign_cert
        (record c {
          key_usage = key_usage_cert_sign ∷ key_usage_crl_sign ∷ [];
          is_ca = true;
          max_path_len_zero = true;
        })
        flags.client_issuer_cert_file flags.client_issuer_key_file flags.ca_cert_file
        flags.ca_key_file

  unfoldable pub create_client_cert : Certificate Time Ip → Exec W Stop (Unit {0})
  create_client_cert c =
      sign_cert (record c { ext_key_usage = c.ext_key_usage ++ (ext_key_usage_client_auth ∷ []) })
        flags.client_cert_file flags.client_key_file flags.client_issuer_cert_file
        flags.client_issuer_key_file

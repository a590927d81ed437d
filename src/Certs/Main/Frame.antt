-- ===== src/Certs/Main/Frame.antt =====
-- cmd/epoxy_certs/main.go: the files that a run leaves alone.
use epoxy.Base.{
  ℕ, Str, ascii, ◌==◌, eq_iff, ◌≡◌, ◌≢◌, refl, ◌∙◌, ap, Option, Bool, false, ◌||◌, List, [], Error,
  ok, inl, inr, ◌⊎◌, if◌then◌else◌, arith, Bool-cases,
}
use epoxy.Base.Exec.{
  Exec, ◌>>◌, lift, finally, Keeps, Keeps-bind, Keeps-bind_returned, Keeps-lift, Keeps-pure,
  Keeps-stop, Keeps-if,
}
use epoxy.Certs.System.{Certificate, Flags, System, must, ignoring}
use epoxy.Certs.Reader.{read_pem_file, read_cert_file, read_file}
use epoxy.Certs.Files.{read_rsa_key_file, write_cert_file, write_rsa_key_file}
use epoxy.Certs.Serial.{get_serial_number}
use epoxy.Certs.Basic.{parse_start_date, get_basic_certificate}
use epoxy.Certs.Issue.{
  write_both, self_sign_cert, signer, sign_cert, create_root_ca_cert, create_server_cert,
  create_issuer_client_cert, create_client_cert,
}
use epoxy.Certs.Main.{check_flags, dispatch, main}

-- What is assumed of the services, for a view `files` of the world: a file changes only by a call that
-- creates it or writes to it.
pub record IsFileSystem {W Time Duration Ip Parsed PrivateKey : Type 0}
    (files : W → Str → Option Str) (sys : System W Time Duration Ip Parsed PrivateKey)
    : Type 0 where
  pub read_keeps : (file : Str) (w : W) → files (sys.read_file file w).1 ≡ files w
  pub create_keeps : (file n : Str) (w : W) → n ≢ file → files (sys.create file w).1 n ≡ files w n
  pub encode_keeps :
      (file label bytes n : Str) (w : W)
      → n ≢ file
      → files (sys.encode_pem file label bytes w).1 n ≡ files w n
  pub close_keeps : (file : Str) (w : W) → files (sys.close file w) ≡ files w
  pub generate_keeps : (bits : ℕ) (w : W) → files (sys.generate_key bits w).1 ≡ files w
  pub sign_keeps :
      (c : Certificate Time Ip) (parent : Certificate Time Ip ⊎ Parsed)
      (key signer_key : PrivateKey) (w : W)
      → files (sys.create_certificate c parent key signer_key w).1 ≡ files w
  pub now_keeps : (w : W) → files (sys.now w).1 ≡ files w

-- The files of a command's certificate and key.
abbrev pub is_output : {Duration : Type 0} → Str → Flags Duration → Str → Bool
is_output opt flags n =
    if opt == ascii "ca"
    then n == flags.ca_cert_file || n == flags.ca_key_file
    else if opt == ascii "clientca"
    then n == flags.client_issuer_cert_file || n == flags.client_issuer_key_file
    else if opt == ascii "client"
    then n == flags.client_cert_file || n == flags.client_key_file
    else if opt == ascii "server"
    then n == flags.server_cert_file || n == flags.server_key_file
    else false

module _ {W A : Type 0} {P : W → Type 0} where
  must-Keeps : (m : Exec W Error A) → Keeps P m → Keeps P (must m)
  must-Keeps m k = record { at = λ w p. k.at w p }

  ignoring-Keeps : (m : Exec W Error A) → Keeps P m → Keeps P (ignoring m)
  ignoring-Keeps m k = record { at = λ w p. k.at w p }

module _ {W Time Duration Ip Parsed PrivateKey : Type 0} (files : W → Str → Option Str)
    (sys : System W Time Duration Ip Parsed PrivateKey) (laws : IsFileSystem files sys) (n : Str)
    (content : Option Str) where
  abbrev Same : W → Type 0
  Same w = files w n ≡ content

  view-Keeps : {E A : Type 0} (m : Exec W E A) → ((w : W) → files (m w).1 ≡ files w) → Keeps Same m
  view-Keeps m same = record { at = λ w held. ap (λ v. v n) (same w) ∙ held }

  written-Keeps :
      (file label bytes : Str)
      → n ≢ file
      → Keeps Same (sys.create file >> finally (sys.encode_pem file label bytes) (sys.close file))
  written-Keeps file label bytes other =
      Keeps-bind (sys.create file) _
        (record { at = λ w held. laws.create_keeps file n w other ∙ held })
        λ _. record {
          at = λ w held.
              ap (λ v. v n) (laws.close_keeps file _)
              ∙ laws.encode_keeps file label bytes n w other
              ∙ held;
        }

  write_both-Keeps :
      (flags : Flags Duration) (der : Str) (key : PrivateKey) (cert_file key_file : Str)
      → (n == cert_file || n == key_file) ≡ false
      → Keeps Same (write_both sys flags der key cert_file key_file)
  unfolding write_both write_cert_file write_rsa_key_file
  write_both-Keeps flags der key cert_file key_file other =
      let not_cert : n ≢ cert_file = λ e. ground (arith, eq_iff n cert_file) in
      let not_key : n ≢ key_file = λ e. ground (arith, eq_iff n key_file) in
      Keeps-bind (ignoring (write_cert_file sys der cert_file)) _
        (ignoring-Keeps _ (written-Keeps cert_file _ der not_cert))
        λ _. ignoring-Keeps _ (written-Keeps key_file _ _ not_key)

  module _ (flags : Flags Duration) (c : Certificate Time Ip) (cert_file key_file : Str)
      (other : (n == cert_file || n == key_file) ≡ false) where
    self_sign_cert-Keeps : Keeps Same (self_sign_cert sys flags c cert_file key_file)
    unfolding self_sign_cert
    self_sign_cert-Keeps =
        Keeps-bind (must (sys.generate_key flags.bit_size)) _
          (must-Keeps _ (view-Keeps _ (laws.generate_keeps flags.bit_size)))
          λ key.
            Keeps-bind (must (sys.create_certificate c (inl c) key key)) _
              (must-Keeps _ (view-Keeps _ (laws.sign_keeps c (inl c) key key)))
              λ der. write_both-Keeps flags der key cert_file key_file other

    signer-Keeps : (file : Str) → Keeps Same (signer sys flags file)
    unfolding signer read_cert_file read_file
    signer-Keeps file = view-Keeps _ (laws.read_keeps file)

    read_rsa_key_file-Keeps : (file : Str) → Keeps Same (read_rsa_key_file sys file)
    unfolding read_rsa_key_file read_pem_file
    read_rsa_key_file-Keeps file =
        Keeps-bind (read_pem_file sys file) _ (view-Keeps _ (laws.read_keeps file))
          λ der. Keeps-lift _

    sign_cert-Keeps :
        (signer_cert_file signer_key_file : Str)
        → Keeps Same (sign_cert sys flags c cert_file key_file signer_cert_file signer_key_file)
    unfolding sign_cert
    sign_cert-Keeps signer_cert_file signer_key_file =
        Keeps-bind (must (signer sys flags signer_cert_file)) _
          (must-Keeps _ (signer-Keeps signer_cert_file))
          λ signer_cert.
            Keeps-bind (must (read_rsa_key_file sys signer_key_file)) _
              (must-Keeps _ (read_rsa_key_file-Keeps signer_key_file))
              λ signer_key.
                Keeps-bind (must (sys.generate_key flags.bit_size)) _
                  (must-Keeps _ (view-Keeps _ (laws.generate_keeps flags.bit_size)))
                  λ key.
                    Keeps-bind (must (sys.create_certificate c (inr signer_cert) key signer_key)) _
                      (must-Keeps _
                        (view-Keeps _ (laws.sign_keeps c (inr signer_cert) key signer_key)))
                      λ der. write_both-Keeps flags der key cert_file key_file other

  dispatch-Keeps :
      (opt : Str) (flags : Flags Duration) (c : Certificate Time Ip)
      → is_output opt flags n ≡ false
      → Keeps Same (dispatch sys opt flags c)
  unfolding dispatch create_root_ca_cert create_server_cert create_issuer_client_cert
      create_client_cert
  dispatch-Keeps opt flags c other =
      Keeps-if (opt == ascii "ca") _ _ (λ ca. self_sign_cert-Keeps flags _ _ _ (ground arith))
        λ not_ca.
          Keeps-if (opt == ascii "clientca") _ _
            (λ issuer. sign_cert-Keeps flags _ _ _ (ground arith) _ _)
            λ not_issuer.
              Keeps-if (opt == ascii "client") _ _
                (λ client. sign_cert-Keeps flags _ _ _ (ground arith) _ _)
                λ not_client.
                  Keeps-if (opt == ascii "server") _ _
                    (λ server. sign_cert-Keeps flags _ _ _ (ground arith) _ _) λ _. Keeps-stop _

  parse_start_date_keeps : (date : Str) (w : W) → files (parse_start_date sys date w).1 ≡ files w
  unfolding parse_start_date
  parse_start_date_keeps date w = elim (Bool-cases (date == [])) [
    | inl e ↦ rw e (laws.now_keeps w)
    | inr e ↦ rw e refl
  ]

  get_basic_certificate-Keeps :
      (flags : Flags Duration) (hostname : Str) (extra : List Str)
      → Keeps Same (get_basic_certificate sys flags hostname extra)
  unfolding get_basic_certificate get_serial_number
  get_basic_certificate-Keeps flags hostname extra =
      Keeps-bind (parse_start_date sys flags.start_date) _
        (view-Keeps _ (parse_start_date_keeps flags.start_date))
        λ not_before.
          Keeps-bind (get_serial_number sys) _ (view-Keeps _ laws.now_keeps) λ serial. Keeps-pure _

module _ {W Time Duration Ip Parsed PrivateKey : Type 0} (files : W → Str → Option Str)
    (sys : System W Time Duration Ip Parsed PrivateKey) (laws : IsFileSystem files sys) where
  -- Whatever way a run ends, it leaves every file as it was, or missing, but the two that its command
  -- and its flags name for the certificate and the key; where the command line is refused, every file.
  pub main_keeps :
      (args : List Str) (w : W) (n : Str)
      → ((opt : Str) (flags : Flags Duration)
          → check_flags sys args ≡ ok (opt, flags)
          → is_output opt flags n ≡ false)
      → files (main sys args w).1 n ≡ files w n
  unfolding main
  main_keeps args w n other =
      let block : Keeps (λ w'. files w' n ≡ files w n) (main sys args) =
        Keeps-bind_returned (lift (check_flags sys args)) _ (Keeps-lift _) λ (opt, flags) _ _ e.
          Keeps-bind (get_basic_certificate sys flags flags.hostname _) _
            (get_basic_certificate-Keeps files sys laws n (files w n) flags flags.hostname _)
            λ c. dispatch-Keeps files sys laws n (files w n) opt flags c (other opt flags e) in
      block.at w refl

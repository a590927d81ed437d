-- ===== src/Certs/Files.antt =====
-- cmd/epoxy_certs/certutil.go: keys are read, keys and certificates are written.
use epoxy.Base.{Str, ascii, Error}
use epoxy.Base.Exec.{Exec, ◌>>=◌, ◌>>◌, lift, finally}
use epoxy.Certs.System.{System}
use epoxy.Certs.Reader.{read_pem_file}

module _ {W Time Duration Ip Parsed PrivateKey : Type 0}
    (sys : System W Time Duration Ip Parsed PrivateKey) where
  -- ReadRSAKeyFile
  unfoldable pub read_rsa_key_file : Str → Exec W Error PrivateKey
  read_rsa_key_file file = do der ← read_pem_file sys file; lift (sys.parse_pkcs1_private_key der)

  -- WriteCertFile
  unfoldable pub write_cert_file : Str → Str → Exec W Error (Unit {0})
  write_cert_file der file = do
    sys.create file
    finally (sys.encode_pem file (ascii "CERTIFICATE") der) (sys.close file)

  -- WriteRSAKeyFile
  unfoldable pub write_rsa_key_file : PrivateKey → Str → Exec W Error (Unit {0})
  write_rsa_key_file key file = do
    sys.create file
    finally (sys.encode_pem file (ascii "RSA PRIVATE KEY") (sys.marshal_pkcs1_private_key key))
        (sys.close file)

-- ===== src/Certs/Reader.antt =====
-- cmd/epoxy_certs/certutil.go: certificates are read, by the first function and by the CertReader
-- that replaced it.
use epoxy.Base.{
  Str, ascii, ◌≡◌, refl, Option, none, some, [], ◌++◌, Error, external, Outcome, ok, err, Result,
}
use epoxy.Base.Exec.{Exec, ◌>>=◌, continue, lift}
use epoxy.Certs.System.{System}

pub record CertReader : Type 0 where
  pub error : Option Error

-- ErrNoCertFound
abbrev pub no_cert_found : Error
no_cert_found = external (ascii "no cert found")

module _ {W Time Duration Ip Parsed PrivateKey : Type 0}
    (sys : System W Time Duration Ip Parsed PrivateKey) where
  first_block : Str → Option Str → Result Str
  first_block file none = err (external (ascii "no PEM block found in " ++ file))
  first_block file (some bytes) = ok bytes

  block_of : Str → Str → Option Error → Result Str
  block_of file bytes (some e) = err e
  block_of file bytes none = first_block file (sys.decode_pem bytes)

  -- readPEMFile
  unfoldable pub read_pem_file : Str → Exec W Error Str
  unfolding block_of first_block
  read_pem_file file w = let ((bytes, e), w') = sys.read_file file w in (block_of file bytes e, w')

  certificate_of : Option Parsed → Option Error → Result (Option Parsed)
  certificate_of cert (some e) = err e
  certificate_of cert none = ok cert

  -- ReadCertFileOld; the value is a pointer
  unfoldable pub read_cert_file_old : Str → Exec W Error (Option Parsed)
  unfolding certificate_of
  read_cert_file_old file = do
    der ← read_pem_file file
    lift (let (cert, e) = sys.parse_certificate der in certificate_of cert e)

  -- cr.err = err, if err != nil
  abbrev noted : CertReader → Option Error → CertReader
  noted cr none = cr
  noted cr (some e) = record cr { error = some e }

  -- CertReader.readFile
  unfoldable pub read_file : Str → CertReader → W → Str × CertReader × W
  read_file file cr w = let ((bytes, e), w') = sys.read_file file w in (bytes, noted cr e, w')

  decoded : Option Str → CertReader → Str × CertReader
  decoded none cr = ([], record cr { error = some no_cert_found })
  decoded (some bytes) cr = (bytes, cr)

  -- CertReader.decode
  unfoldable pub decode : Str → CertReader → Str × CertReader
  unfolding decoded
  decode bytes cr = elim cr.error [ some e ↦ ([], cr) | none ↦ decoded (sys.decode_pem bytes) cr ]

  -- CertReader.parseCertificate
  unfoldable pub parse_certificate : Str → CertReader → Option Parsed × CertReader
  parse_certificate bytes cr = elim cr.error [
    | some e ↦ (none, cr)
    | none ↦ let (cert, e) = sys.parse_certificate bytes in (cert, noted cr e)
  ]

  -- ReadCertFile
  unfoldable pub read_cert_file : Str → W → (Option Parsed × Option Error) × W
  read_cert_file file w =
      let (bytes, cr, w') = read_file file (record { error = none }) w in
      let (der, cr₁) = decode bytes cr in
      let (cert, cr₂) = parse_certificate der cr₁ in ((cert, cr₂.error), w')

  -- The two return the same certificate, or an error each.
  abbrev pub Agree : Outcome Error (Option Parsed) → Option Parsed × Option Error → Type 0
  Agree (ok cert) (cert', e) = (cert' ≡ cert) × (e ≡ none)
  Agree (err e) (cert', e') = (x : Error) × (e' ≡ some x)

  parsed-Agree :
      (cert : Option Parsed) (e : Option Error)
      → Agree (certificate_of cert e) (cert, (noted (record { error = none }) e).error)
  unfolding certificate_of
  parsed-Agree cert none = (refl, refl)
  parsed-Agree cert (some e) = (e, refl)

  old_rest : Str → Exec W Error (Option Parsed)
  old_rest der = lift (let (cert, e) = sys.parse_certificate der in certificate_of cert e)

  new_rest : Str × CertReader → Option Parsed × Option Error
  new_rest (der, cr) = let (cert, cr') = parse_certificate der cr in (cert, cr'.error)

  after_block :
      (file : Str) (block : Option Str) (w : W)
      → Agree
          (continue (first_block file block) old_rest w).0
          (new_rest (decoded block (record { error = none })))
        × (w ≡ (continue (first_block file block) old_rest w).1)
  unfolding first_block decoded old_rest new_rest parse_certificate
  after_block file none w = ((no_cert_found, refl), refl)
  after_block file (some der) w =
      let (cert, e) = sys.parse_certificate der in (parsed-Agree cert e, refl)

  after_read :
      (file bytes : Str) (e : Option Error) (w : W)
      → Agree
          (continue (block_of file bytes e) old_rest w).0
          (new_rest (decode bytes (noted (record { error = none }) e)))
        × (w ≡ (continue (block_of file bytes e) old_rest w).1)
  unfolding block_of decode new_rest parse_certificate
  after_read file bytes none w = after_block file (sys.decode_pem bytes) w
  after_read file bytes (some e) w = ((e, refl), refl)

  -- The CertReader agrees with the function that it replaced: both return the same certificate, or
  -- both return an error; and both leave the same world.
  pub read_cert_file_agrees :
      (file : Str) (w : W)
      → Agree (read_cert_file_old file w).0 (read_cert_file file w).0
        × ((read_cert_file file w).1 ≡ (read_cert_file_old file w).1)
  unfolding read_cert_file_old read_cert_file read_pem_file read_file ◌>>=◌ old_rest new_rest
  read_cert_file_agrees file w =
      let ((bytes, e), w') = sys.read_file file w in after_read file bytes e w'

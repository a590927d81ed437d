-- ===== src/Certs/Main.antt =====
-- cmd/epoxy_certs/main.go: checkFlags and main.
pub mod Frame
use epoxy.Base.{
  Str, ascii, ◌==◌, Bool, not, ◌&&◌, List, [], ◌∷◌, Error, external, Outcome, ok, err, same_byte,
  if◌then◌else◌,
}
use epoxy.Base.Exec.{Exec, ◌>>=◌, pure, stop, lift}
use epoxy.Go.Strings.{split}
use epoxy.Certs.System.{Certificate, Flags, System, Stop, usage, fatal, index_out_of_range, must}
use epoxy.Certs.Basic.{get_basic_certificate}
use epoxy.Certs.Issue.{
  create_root_ca_cert, create_server_cert, create_issuer_client_cert, create_client_cert,
}

module _ {W Time Duration Ip Parsed PrivateKey : Type 0}
    (sys : System W Time Duration Ip Parsed PrivateKey) where
  parsed_flags : Str → Outcome Error (Flags Duration) → Outcome Stop (Str × Flags Duration)
  parsed_flags opt (err e) = err (fatal e)
  parsed_flags opt (ok flags) =
      if (flags.hostname == []) && not (opt == ascii "ca")
      then err (fatal (external (ascii "Missing required --hostname parameter.")))
      else ok (opt, flags)

  -- os.Args: the program, the command, its flags. os.Args[1][0] of an empty command is a panic.
  unfoldable pub check_flags : List Str → Outcome Stop (Str × Flags Duration)
  unfolding parsed_flags
  check_flags [] = err index_out_of_range
  check_flags (program ∷ []) = err usage
  check_flags (program ∷ [] ∷ args) = err index_out_of_range
  check_flags (program ∷ (c ∷ opt) ∷ args) =
      if same_byte c b'-' then err usage else parsed_flags (c ∷ opt) (sys.parse_flags args)

  -- The switch on the command.
  unfoldable pub dispatch : Str → Flags Duration → Certificate Time Ip → Exec W Stop (Unit {0})
  dispatch opt flags c =
      if opt == ascii "ca"
      then create_root_ca_cert sys flags c
      else if opt == ascii "clientca"
      then create_issuer_client_cert sys flags c
      else if opt == ascii "client"
      then create_client_cert sys flags c
      else if opt == ascii "server"
      then create_server_cert sys flags c
      else stop usage

  unfoldable pub main : List Str → Exec W Stop (Unit {0})
  main args = do
    (opt, flags) ← lift (check_flags args)
    c ← get_basic_certificate sys flags flags.hostname (split flags.extra_hostnames (ascii ","))
    dispatch opt flags c

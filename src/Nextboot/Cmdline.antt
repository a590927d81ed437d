-- ===== src/Nextboot/Cmdline.antt =====
-- nextboot/v1.go: ParseCmdline.
pub mod RoundTrip
use epoxy.Base.{ℕ, Str, Bool, ◌||◌, List, [], ◌∷◌, same_byte}
use epoxy.Base.Dict.{Dict, insert}
use epoxy.Go.Strings.{split, split_pair, trim}
use epoxy.Nextboot.Config.{Config}

-- The cutset " \n"
abbrev pub is_blank : ℕ → Bool
is_blank b = same_byte b 32 || same_byte b 10

-- kargs[keyval[0]] = …, for the pieces of a parameter
abbrev pub add_pieces : List Str → Dict Str → Dict Str
add_pieces (key ∷ value ∷ []) kargs = insert key value kargs
add_pieces (key ∷ _) kargs = insert key [] kargs
add_pieces [] kargs = kargs

unfoldable pub add_param : Str → Dict Str → Dict Str
unfolding split_pair
add_param param kargs = add_pieces (split_pair param b'=') kargs

unfoldable pub add_params : List Str → Dict Str → Dict Str
add_params [] kargs = kargs
add_params (param ∷ params) kargs = add_params params (add_param param kargs)

unfoldable pub parse_cmdline : Str → Config → Config
unfolding add_params
parse_cmdline cmdline c = record c {
  kargs = add_params (split (trim is_blank cmdline) (32 ∷ [])) [];
}

-- ===== src/Template/Escaping.antt =====
-- What html/template does to the values of an iPXE script, which is plain text.
use mathlib.Core.List.{append_assoc}
use epoxy.Base.{
  ℕ, ◌≤◌, ◌+◌, Str, ascii, List, ◌++◌, sym, ◌∙◌, ◌≡◌, refl, Bool, false, ◌||◌, [], ◌∷◌, arith, All,
  length, same_byte, ◌↔◌, ap,
}
use epoxy.Base.Dict.{Dict}
use epoxy.Go.Sort.{sort_keys}
use epoxy.Storage.Host.{Host}
use epoxy.Template.Scripts.{
  html_escape, Stage1Values, extension_lines, execute_stage1_ipxe, stage1_values,
  format_stage1_ipxe_script,
}

-- The characters that are escaped.
abbrev pub is_special : ℕ → Bool
is_special c =
    same_byte c 0
    || same_byte c b'"'
    || same_byte c b'&'
    || same_byte c 39
    || same_byte c b'+'
    || same_byte c b'<'
    || same_byte c b'>'

html_escape_grows : (s : Str) → length s ≤ length (html_escape s)
unfolding html_escape
html_escape_grows [] = omega arith
html_escape_grows (c ∷ s) = ground (arith, html_escape_grows s)

html_escape_plain : (s : Str) → All (λ c. is_special c ≡ false) s → html_escape s ≡ s
unfolding html_escape
html_escape_plain [] h = refl
html_escape_plain (c ∷ s) h = ground (arith, h.0, html_escape_plain s h.1)

abbrev pub IsPlain : Str → Type 0
IsPlain s = All (λ c. is_special c ≡ false) s

same_length-IsPlain : (s : Str) → length (html_escape s) ≡ length s → IsPlain s
unfolding html_escape
same_length-IsPlain [] e = tt
same_length-IsPlain (c ∷ s) e = ground (arith, html_escape_grows s, same_length-IsPlain s)

-- A part of a script: text of the template, or a value that it shows.
pub data Piece : Type 0 where
  text : Str → Piece
  shown : Str → Piece

-- The pieces, with what `f` makes of the values.
unfoldable pub render : (Str → Str) → List Piece → Str
render f [] = []
render f (text t ∷ ps) = t ++ render f ps
render f (shown v ∷ ps) = f v ++ render f ps

-- The script as the template has it, with the extensions in the order of their names.
abbrev extension_pieces : Dict Str → List Piece → List Piece
extension_pieces [] ps = ps
extension_pieces ((key, value) ∷ rest) ps =
    text (ascii "\nset ")
    ∷ shown key
    ∷ text (ascii "_url ")
    ∷ shown value
    ∷ extension_pieces rest ps

abbrev pub pieces : Stage1Values → List Piece
pieces vals =
    text (ascii "#!ipxe\n\nset stage1chain_url ")
    ∷ shown vals.stage1_chain_url
    ∷ text (ascii "\nset stage2_url ")
    ∷ shown vals.stage2_url
    ∷ text (ascii "\nset stage3_url ")
    ∷ shown vals.stage3_url
    ∷ text (ascii "\nset report_url ")
    ∷ shown vals.report_url
    ∷ text (ascii "\nset images_version ")
    ∷ shown vals.images_version
    ∷ extension_pieces (sort_keys vals.extensions)
        (text (ascii "\n\nchain ${stage1chain_url}\n") ∷ [])

-- No value that is shown holds NUL or one of the characters " & ' + < >.
abbrev pub ShowsPlain : List Piece → Type 0
ShowsPlain [] = Unit
ShowsPlain (text t ∷ ps) = ShowsPlain ps
ShowsPlain (shown v ∷ ps) = IsPlain v × ShowsPlain ps

length-append : (s t : Str) → length (s ++ t) ≡ length s + length t
length-append [] t = omega arith
length-append (c ∷ s) t = ground (arith, length-append s t)

append_cancel : (s t t' : Str) → s ++ t ≡ s ++ t' → t ≡ t'
append_cancel [] t t' e = e
append_cancel (c ∷ s) t t' e = append_cancel s t t' cc

render_grows : (ps : List Piece) → length (render (λ v. v) ps) ≤ length (render html_escape ps)
unfolding render
render_grows [] = omega arith
render_grows (text t ∷ ps) =
    let rest = render_grows ps in rw (length-append, length-append) (omega arith)
render_grows (shown v ∷ ps) =
    let rest = render_grows ps in
    let here = html_escape_grows v in rw (length-append, length-append) (omega arith)

render_plain : (ps : List Piece) → ShowsPlain ps → render html_escape ps ≡ render (λ v. v) ps
unfolding render
render_plain [] h = refl
render_plain (text t ∷ ps) h = rw (render_plain ps h) refl
render_plain (shown v ∷ ps) h = rw (html_escape_plain v h.0, render_plain ps h.1) refl

render_same : (ps : List Piece) → render html_escape ps ≡ render (λ v. v) ps → ShowsPlain ps
unfolding render
render_same [] e = tt
render_same (text t ∷ ps) e = render_same ps (append_cancel t _ _ e)
render_same (shown v ∷ ps) e =
    let long = ap length e in
    let long' : length (html_escape v) + length (render html_escape ps)
        ≡ length v + length (render (λ v. v) ps) =
      sym (length-append (html_escape v) (render html_escape ps))
      ∙ long
      ∙ length-append v (render (λ v. v) ps) in
    let rest = render_grows ps in
    let here = html_escape_grows v in
    let plain = same_length-IsPlain v (omega arith) in
    let e' : v ++ render html_escape ps ≡ v ++ render (λ v. v) ps =
      rw (html_escape_plain v plain) at e in
    (plain, render_same ps (append_cancel v _ _ e'))

lines_rendered :
    (d : Dict Str) (ps : List Piece)
    → extension_lines d ++ render html_escape ps ≡ render html_escape (extension_pieces d ps)
unfolding render extension_lines ascii
lines_rendered [] ps = refl
lines_rendered ((key, value) ∷ rest) ps =
    rw (append_assoc (html_escape key), append_assoc (html_escape value), lines_rendered rest ps)
      refl

execute-render : (vals : Stage1Values) → execute_stage1_ipxe vals ≡ render html_escape (pieces vals)
unfolding render execute_stage1_ipxe ascii
execute-render vals =
    rw
      (← lines_rendered (sort_keys vals.extensions)
        (text (ascii "\n\nchain ${stage1chain_url}\n") ∷ []))
      refl

-- The iPXE script of a host is its template with the values as they are exactly when no value that
-- it shows (the URLs, the images version, and the name and the URL of each extension) holds NUL or
-- one of the characters " & ' + < >.
pub format_stage1_ipxe_script-eq_iff :
    (h : Host) (server : Str)
    → (format_stage1_ipxe_script h server ≡ render (λ v. v) (pieces (stage1_values h server)))
      ↔ ShowsPlain (pieces (stage1_values h server))
unfolding format_stage1_ipxe_script
format_stage1_ipxe_script-eq_iff h server =
    let ps = pieces (stage1_values h server) in
    let same = execute-render (stage1_values h server) in
    (λ e. render_same ps (sym same ∙ e), λ plain. same ∙ render_plain ps plain)

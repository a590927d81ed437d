-- ===== src/Nextboot/Cmdline/RoundTrip.antt =====
-- nextboot/v1.go: ParseCmdline on a command line that is written from parameters.
use epoxy.Base.{
  ℕ, ◌≡◌, refl, ap, ◌∙◌, Str, Bool, true, false, not, ◌||◌, List, [], ◌∷◌, ◌++◌, map, same_byte,
  All, arith,
}
use epoxy.Base.Dict.{Dict, insert}
use epoxy.Go.Strings.{
  split, split_from, has_prefix, split_pair, join, trim, trim_left, trim_right, keep_end,
}
use epoxy.Nextboot.Config.{Config}
use epoxy.Nextboot.Cmdline.{is_blank, add_pieces, add_param, add_params, parse_cmdline}

-- A parameter as it stands on the command line.
abbrev pub print_param : Str × Str → Str
print_param (key, value) = key ++ (b'=' ∷ value)

abbrev pub print_cmdline : Dict Str → Str
print_cmdline params = join (map print_param params) (32 ∷ [])

-- A key has no blank and no '=', a value has no blank.
abbrev pub IsParam : Str × Str → Type 0
IsParam (key, value) =
    All (λ b. (is_blank b || same_byte b b'=') ≡ false) key × All (λ b. is_blank b ≡ false) value

-- The map with the parameters, the later ones over the earlier ones.
abbrev pub assign_all : Dict Str → Dict Str → Dict Str
assign_all [] kargs = kargs
assign_all ((key, value) ∷ params) kargs = assign_all params (insert key value kargs)

abbrev IsWord : Str → Type 0
IsWord = All (λ b. is_blank b ≡ false)

IsWord-param :
    (key value : Str)
    → All (λ b. (is_blank b || same_byte b b'=') ≡ false) key
    → IsWord value
    → IsWord (key ++ (b'=' ∷ value))
IsWord-param [] value hk hv = (refl, hv)
IsWord-param (b ∷ key) value hk hv = (ground (arith, hk.0), IsWord-param key value hk.1 hv)

split_pair-param :
    (key value : Str)
    → All (λ b. (is_blank b || same_byte b b'=') ≡ false) key
    → split_pair (key ++ (b'=' ∷ value)) b'=' ≡ key ∷ value ∷ []
unfolding split_pair
split_pair-param [] value h = refl
split_pair-param (b ∷ key) value h = ground (arith, h.0, split_pair-param key value h.1)

split_from-word :
    (word rest : Str)
    → IsWord word
    → split_from (32 ∷ []) 0 (word ++ (32 ∷ rest)) ≡ word ∷ split_from (32 ∷ []) 0 rest
unfolding split_from has_prefix
split_from-word [] rest h = refl
split_from-word (b ∷ word) rest h = ground (arith, h.0, split_from-word word rest h.1)

split_from-last : (word : Str) → IsWord word → split_from (32 ∷ []) 0 word ≡ word ∷ []
unfolding split_from has_prefix
split_from-last [] h = refl
split_from-last (b ∷ word) h = ground (arith, h.0, split_from-last word h.1)

split_from-join :
    (word : Str) (words : List Str)
    → IsWord word
    → All IsWord words
    → split_from (32 ∷ []) 0 (join (word ∷ words) (32 ∷ [])) ≡ word ∷ words
unfolding join
split_from-join word [] h hs = split_from-last word h
split_from-join word (next ∷ words) h hs =
    split_from-word word (join (next ∷ words) (32 ∷ [])) h
    ∙ ap (λ pieces. word ∷ pieces) (split_from-join next words hs.0 hs.1)

-- The last byte is no blank.
abbrev EndsPlain : Str → Type 0
EndsPlain [] = Unit
EndsPlain (b ∷ []) = is_blank b ≡ false
EndsPlain (b ∷ c ∷ s) = EndsPlain (c ∷ s)

trim_right-EndsPlain : (s : Str) → EndsPlain s → trim_right is_blank s ≡ s
unfolding trim_right
trim_right-EndsPlain [] h = refl
trim_right-EndsPlain (b ∷ []) h = ground arith
trim_right-EndsPlain (b ∷ c ∷ s) h =
    ap (λ kept. keep_end is_blank b kept) (trim_right-EndsPlain (c ∷ s) h)

EndsPlain-word : (s : Str) → IsWord s → EndsPlain s
EndsPlain-word [] h = tt
EndsPlain-word (b ∷ []) h = h.0
EndsPlain-word (b ∷ c ∷ s) h = EndsPlain-word (c ∷ s) h.1

EndsPlain-append : (s t : Str) (b : ℕ) → EndsPlain (b ∷ t) → EndsPlain (s ++ (b ∷ t))
EndsPlain-append [] t b h = h
EndsPlain-append (c ∷ []) t b h = h
EndsPlain-append (c ∷ d ∷ s) t b h = EndsPlain-append (d ∷ s) t b h

-- The first byte is there, and no blank.
abbrev starts_plain : Str → Bool
starts_plain [] = false
starts_plain (b ∷ s) = not (is_blank b)

starts_plain-append : (s t : Str) → starts_plain s ≡ true → starts_plain (s ++ t) ≡ true
starts_plain-append [] t h = cc
starts_plain-append (b ∷ s) t h = h

starts_plain-param :
    (key value : Str)
    → All (λ b. (is_blank b || same_byte b b'=') ≡ false) key
    → starts_plain (key ++ (b'=' ∷ value)) ≡ true
starts_plain-param [] value h = refl
starts_plain-param (b ∷ key) value h = ground (arith, h.0)

starts_plain-join :
    (word : Str) (words : List Str)
    → starts_plain word ≡ true
    → starts_plain (join (word ∷ words) (32 ∷ [])) ≡ true
unfolding join
starts_plain-join word [] h = h
starts_plain-join word (next ∷ words) h = starts_plain-append word _ h

EndsPlain-cons : (b : ℕ) (s : Str) → starts_plain s ≡ true → EndsPlain s → EndsPlain (b ∷ s)
EndsPlain-cons b [] h e = cc
EndsPlain-cons b (c ∷ s) h e = e

trim_left-plain : (s : Str) → starts_plain s ≡ true → trim_left is_blank s ≡ s
unfolding trim_left
trim_left-plain [] h = cc
trim_left-plain (b ∷ s) h = ground arith

trim-plain : (s : Str) → starts_plain s ≡ true → EndsPlain s → trim is_blank s ≡ s
unfolding trim
trim-plain s h e = rw (trim_left-plain s h) (trim_right-EndsPlain s e)

EndsPlain-cmdline :
    (key value : Str) (params : Dict Str)
    → All IsParam ((key, value) ∷ params)
    → EndsPlain (print_cmdline ((key, value) ∷ params))
unfolding join
EndsPlain-cmdline key value [] ((hk, hv), h) =
    EndsPlain-word (print_param (key, value)) (IsWord-param key value hk hv)
EndsPlain-cmdline key value ((key', value') ∷ params) ((hk, hv), h) =
    EndsPlain-append (print_param (key, value)) (print_cmdline ((key', value') ∷ params)) 32 (
      EndsPlain-cons 32 (print_cmdline ((key', value') ∷ params))
        (starts_plain-join (print_param (key', value')) (map print_param params)
          (starts_plain-param key' value' h.0.0))
        (EndsPlain-cmdline key' value' params h))

AreWords : (params : Dict Str) → All IsParam params → All IsWord (map print_param params)
AreWords [] h = tt
AreWords ((key, value) ∷ params) ((hk, hv), h) = (IsWord-param key value hk hv, AreWords params h)

add_param-print :
    (key value : Str) (kargs : Dict Str)
    → All (λ b. (is_blank b || same_byte b b'=') ≡ false) key
    → add_param (print_param (key, value)) kargs ≡ insert key value kargs
unfolding add_param
add_param-print key value kargs h =
    ap (λ pieces. add_pieces pieces kargs) (split_pair-param key value h)

add_params-print :
    (params kargs : Dict Str)
    → All IsParam params
    → add_params (map print_param params) kargs ≡ assign_all params kargs
unfolding add_params
add_params-print [] kargs h = refl
add_params-print ((key, value) ∷ params) kargs ((hk, hv), h) =
    ap (add_params (map print_param params)) (add_param-print key value kargs hk)
    ∙ add_params-print params (insert key value kargs) h

-- A command line written from at least one parameter, as key=value with a blank between two, is
-- parsed into the map of these parameters, whatever kernel arguments there were before. Keys have
-- no blank and no '=', and values no blank.
pub parse_cmdline-print :
    (key value : Str) (params : Dict Str) (c : Config)
    → All IsParam ((key, value) ∷ params)
    → parse_cmdline (print_cmdline ((key, value) ∷ params)) c
      ≡ record c { kargs = assign_all ((key, value) ∷ params) [] }
unfolding parse_cmdline split
parse_cmdline-print key value params c (p, h) =
    let words : All IsWord (map print_param ((key, value) ∷ params)) =
      AreWords ((key, value) ∷ params) (p, h) in
    simp (
      trim-plain (print_cmdline ((key, value) ∷ params))
          (starts_plain-join (print_param (key, value)) (map print_param params)
            (starts_plain-param key value p.0))
          (EndsPlain-cmdline key value params (p, h)),
      split_from-join (print_param (key, value)) (map print_param params) words.0 words.1,
      add_params-print ((key, value) ∷ params) [] (p, h),
    )

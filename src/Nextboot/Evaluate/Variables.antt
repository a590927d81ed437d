-- ===== src/Nextboot/Evaluate/Variables.antt =====
-- nextboot/v1.go: evaluateVars.
use epoxy.Base.{Str, ◌≡◌, refl, [], ◌∷◌, ok, err, Result}
use epoxy.Base.Dict.{Dict}
use epoxy.Go.Strings.{join}
use epoxy.Nextboot.Config.{Value, null, bool_true, bool_false, num, str, arr, obj, Items}
use epoxy.Nextboot.Values.{sprint_items, interface_to_string_array}
use epoxy.Nextboot.Evaluate.{Loop, var_text, next_var, eval_var, eval_vars}

-- The text of a value: a string is its own, an array has its items between spaces, and no other
-- value has one.
pub data IsText : Value → Str → Type 0 where
  of_string : (s : Str) → IsText (str s) s
  of_array : (xs : Items) → IsText (arr xs) (join (sprint_items xs) (32 ∷ []))

var_text-IsText : (v : Value) (text : Str) → var_text v ≡ ok text → IsText v text
unfolding var_text interface_to_string_array
var_text-IsText (str s) text e = let same : s ≡ text = cc in rw (← same) (of_string s)
var_text-IsText (arr xs) text e =
    let same : join (sprint_items xs) (32 ∷ []) ≡ text = cc in rw (← same) (of_array xs)
var_text-IsText null text e = cc
var_text-IsText bool_true text e = cc
var_text-IsText bool_false text e = cc
var_text-IsText (num n) text e = cc
var_text-IsText (obj fs) text e = cc

module _ (eval : Str → Result Str) where
  -- `new` is the string that the template in `old` evaluates to.
  abbrev pub IsEvaluated : Value → Value → Type 0
  IsEvaluated old new =
      (text : Str) × (sval : Str) × IsText old text × (eval text ≡ ok sval) × (new ≡ str sval)

  -- The same keys in the same order, every value evaluated.
  pub data AreEvaluated : Dict Value → Dict Value → Type 0 where
    none_left : AreEvaluated [] []
    evaluated :
        (key : Str) (old new : Value) (vars vars' : Dict Value)
        → IsEvaluated old new
        → AreEvaluated vars vars'
        → AreEvaluated ((key, old) ∷ vars) ((key, new) ∷ vars')

  next_var-AreEvaluated :
      (key text : Str) (value : Value) (r : Result Str) (vars left : Dict Value)
      (rest : Loop (Dict Value))
      → var_text value ≡ ok text
      → eval text ≡ r
      → (rest.0 ≡ ok tt → AreEvaluated vars rest.1)
      → (next_var eval key r left rest).0 ≡ ok tt
      → AreEvaluated ((key, value) ∷ vars) (next_var eval key r left rest).1
  unfolding next_var
  next_var-AreEvaluated key text value (err e) vars left rest t v h o = cc
  next_var-AreEvaluated key text value (ok sval) vars left rest t v h o =
      evaluated key value (str sval) vars rest.1 (text, sval, var_text-IsText value text t, v, refl)
        (h o)

  eval_var-AreEvaluated :
      (key : Str) (value : Value) (r : Result Str) (vars : Dict Value) (rest : Loop (Dict Value))
      → var_text value ≡ r
      → (rest.0 ≡ ok tt → AreEvaluated vars rest.1)
      → (eval_var eval key value r vars rest).0 ≡ ok tt
      → AreEvaluated ((key, value) ∷ vars) (eval_var eval key value r vars rest).1
  unfolding eval_var
  eval_var-AreEvaluated key value (err e) vars rest t h o = cc
  eval_var-AreEvaluated key value (ok text) vars rest t h o =
      next_var-AreEvaluated key text value (eval text) vars ((key, str text) ∷ vars) rest t refl h o

  -- When the loop over the variables ends without an error, no key has changed, every variable was
  -- a string or an array, and holds the string that its text evaluates to: that of a string is the
  -- string, that of an array its items between spaces.
  pub eval_vars-AreEvaluated :
      (vars : Dict Value)
      → (eval_vars eval vars).0 ≡ ok tt
      → AreEvaluated vars (eval_vars eval vars).1
  unfolding eval_vars
  eval_vars-AreEvaluated [] h = none_left
  eval_vars-AreEvaluated ((key, value) ∷ vars) h =
      eval_var-AreEvaluated key value (var_text value) vars (eval_vars eval vars) refl
        (eval_vars-AreEvaluated vars) h

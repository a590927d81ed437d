-- ===== src/Nextboot/Evaluate/Keys.antt =====
-- nextboot/v1.go: the keys of the map that evaluateEnv works on.
use epoxy.Base.{Str, ◌≡◌, none, [], ◌∷◌, arith, ok, err, Result}
use epoxy.Base.Dict.{Dict, lookup, lookup-cons, HasDistinctKeys}
use epoxy.Nextboot.Evaluate.{Loop, next_env, eval_env}

module _ (eval : Str → Result Str) where
  lookup-next_env :
      (k j v : Str) (r : Result Str) (env : Dict Str) (rest : Loop (Dict Str))
      → lookup k ((j, v) ∷ env) ≡ none
      → lookup k rest.1 ≡ none
      → lookup k (next_env eval j v r env rest).1 ≡ none
  unfolding next_env
  lookup-next_env k j v (err e) env rest h h' = h
  lookup-next_env k j v (ok s) env rest h h' =
      ground (arith, lookup-cons j k v env, lookup-cons j k s rest.1)

  lookup-eval_env :
      (env : Dict Str) (k : Str) → lookup k env ≡ none → lookup k (eval_env eval env).1 ≡ none
  unfolding eval_env
  lookup-eval_env [] k h = h
  lookup-eval_env ((j, v) ∷ env) k h =
      lookup-next_env k j v (eval v) env (eval_env eval env) h
        (lookup-eval_env env k (ground (arith, lookup-cons j k v env)))

  HasDistinctKeys-next_env :
      (j v : Str) (r : Result Str) (env : Dict Str) (rest : Loop (Dict Str))
      → HasDistinctKeys ((j, v) ∷ env)
      → lookup j rest.1 ≡ none
      → HasDistinctKeys rest.1
      → HasDistinctKeys (next_env eval j v r env rest).1
  unfolding next_env
  HasDistinctKeys-next_env j v (err e) env rest d f d' = d
  HasDistinctKeys-next_env j v (ok s) env rest d f d' = (f, d')

  pub HasDistinctKeys-eval_env :
      (env : Dict Str) → HasDistinctKeys env → HasDistinctKeys (eval_env eval env).1
  unfolding eval_env
  HasDistinctKeys-eval_env [] d = tt
  HasDistinctKeys-eval_env ((j, v) ∷ env) (f, d) =
      HasDistinctKeys-next_env j v (eval v) env (eval_env eval env) (f, d) (lookup-eval_env env j f)
        (HasDistinctKeys-eval_env env d)

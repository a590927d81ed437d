-- ===== src/Nextboot/Load/Kargs.antt =====
-- nextboot/v1.go: the merge of kernel arguments in loadAction.
use epoxy.Base.{Str, eq_iff, ◌≡◌, [], ◌∷◌, arith, if◌then◌else◌}
use epoxy.Base.Dict.{Dict, lookup, insert, lookup-insert, lookup-cons, lookup-nil, found}
use epoxy.Nextboot.Load.{merge_kargs}

-- After the merge of downloaded kernel arguments into those of the client, a key has the client's
-- value where there is one, and otherwise the downloaded value, if there is one.
pub lookup-merge_kargs :
    (n kargs : Dict Str) (k : Str)
    → lookup k (merge_kargs n kargs)
      ≡ (if found (lookup k kargs) then lookup k kargs else lookup k n)
unfolding merge_kargs
lookup-merge_kargs [] kargs k = ground (arith, lookup-nil {V = Str} k)
lookup-merge_kargs ((j, v) ∷ n) kargs k = ground (
  arith,
  lookup-merge_kargs n (if found (lookup j kargs) then kargs else insert j v kargs) k,
  lookup-insert j k v kargs,
  lookup-cons j k v n,
  eq_iff j k,
)

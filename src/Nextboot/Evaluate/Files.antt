-- ===== src/Nextboot/Evaluate/Files.antt =====
-- nextboot/v1.go: every temporary file of evaluateAndDownloadFiles has its name in the configuration.
use epoxy.Base.{
  Str, ascii, ◌≡◌, ◌⊎◌, inl, inr, refl, false, Option, none, some, List, ◌∷◌, Error, arith,
}
use epoxy.Base.Dict.{Dict, lookup, insert, lookup-insert, lookup-cons}
use epoxy.Base.Exec.{Keeps}
use epoxy.Base.Exec.Ensures.{Ends, Ensures, Ensures-bind}
use epoxy.Nextboot.Config.{V1}
use epoxy.Nextboot.Client.{Machine, Client, deref, get_v1}
use epoxy.Nextboot.Files.{exists}
use epoxy.Nextboot.Evaluate.{put_spec}

-- The name of the file stands in an entry, whose key is not one of `rest`.
pub record IsEntry (f : Str) (entries : Dict (Dict Str)) (rest : Dict (Dict Str)) : Type 0 where
  pub key : Str
  pub spec : Dict Str
  pub there : lookup key entries ≡ some spec
  pub named : lookup (ascii "name") spec ≡ some f
  pub other : lookup key rest ≡ none

-- If the file is there, an entry that is not one of `rest` has its name.
abbrev pub IsRecordedIn : Str → Dict (Dict Str) → V1 → List Str → Type 0
IsRecordedIn f rest v1 files = (exists f files ≡ false) ⊎ IsEntry f v1.files rest

abbrev pub IsRecorded : {W : Type 0} → Str → Dict (Dict Str) → Client W → Type 0
IsRecorded f rest s = (v1 : V1) × (s.config.v1 ≡ some v1) × IsRecordedIn f rest v1 s.files

-- The same, or it is `tmpfile`.
abbrev pub IsMade : {W : Type 0} → Str → Str → Dict (Dict Str) → Client W → Type 0
IsMade f tmpfile rest s =
    (v1 : V1) × (s.config.v1 ≡ some v1) × ((tmpfile ≡ f) ⊎ IsRecordedIn f rest v1 s.files)

module _ {W : Type 0} (m : Machine W) (f : Str) where
  pub get_v1-Ensures :
      (X : V1 → List Str → Type 0) (R : Error → Client W → Type 0)
      → Ensures
          (λ s. (v1 : V1) × (s.config.v1 ≡ some v1) × X v1 s.files)
          get_v1
          (λ v1 s. (s.config.v1 ≡ some v1) × X v1 s.files)
          R
  unfolding get_v1
  get_v1-Ensures X R = record { at = λ s h. go s s.config.v1 refl h }
    where
      go :
          (s : Client W) (o : Option V1)
          → s.config.v1 ≡ o
          → (v1 : V1) × (s.config.v1 ≡ some v1) × X v1 s.files
          → Ends (λ v1 s. (s.config.v1 ≡ some v1) × X v1 s.files) R (deref o) s
      go s none e (v1, e', x) = cc
      go s (some v1) e (v1', e', x) = let same : v1' ≡ v1 = cc in (e, rw (← same) x)

  pub get_v1-Keeps : (P : Client W → Type 0) → Keeps P get_v1
  unfolding get_v1
  get_v1-Keeps P = record { at = λ s h. h }

  module _ (name : Str) (old : Dict Str) (rest : Dict (Dict Str)) where
    -- Another entry stays when the one under `name` is replaced.
    pub IsEntry-kept :
        (entries : Dict (Dict Str)) (spec : Dict Str)
        → IsEntry f entries ((name, old) ∷ rest)
        → IsEntry f (insert name spec entries) ((name, old) ∷ rest)
    IsEntry-kept entries spec e = record {
      key = e.key;
      spec = e.spec;
      there =
          let before = e.there in
          let other = e.other in
          ground (arith, lookup-insert name e.key spec entries, lookup-cons name e.key old rest);
      named = e.named;
      other = e.other;
    }

    pub IsEntry-of_rest :
        (entries : Dict (Dict Str))
        → IsEntry f entries ((name, old) ∷ rest)
        → IsEntry f entries rest
    IsEntry-of_rest entries e = record {
      key = e.key;
      spec = e.spec;
      there = e.there;
      named = e.named;
      other = let other = e.other in ground (arith, lookup-cons name e.key old rest);
    }

    pub put_spec-Ensures :
        (spec : Dict Str)
        → Ensures
            (IsRecorded f ((name, old) ∷ rest))
            (put_spec m name spec)
            (λ _. IsRecorded f ((name, old) ∷ rest))
            (λ _. IsRecorded f ((name, old) ∷ rest))
    put_spec-Ensures spec =
        Ensures-bind get_v1 _ (get_v1-Ensures (IsRecordedIn f ((name, old) ∷ rest)) _) λ v1.
          record {
            at = λ s (e, h).
                (record v1 { files = insert name spec v1.files }, refl, after v1 s.files h);
          }
      where
        after :
            (v1 : V1) (files : List Str)
            → IsRecordedIn f ((name, old) ∷ rest) v1 files
            → IsRecordedIn f
                ((name, old) ∷ rest)
                (record v1 { files = insert name spec v1.files })
                files
        after v1 files (inl absent) = inl absent
        after v1 files (inr entry) = inr (IsEntry-kept v1.files spec entry)

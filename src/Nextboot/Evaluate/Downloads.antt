-- ===== src/Nextboot/Evaluate/Downloads.antt =====
-- nextboot/v1.go: a round of evaluateAndDownloadFiles gives its temporary file an entry, or removes it.
use epoxy.Base.{
  Str, ascii, eq_iff, eq_refl, ◌≡◌, ◌⊎◌, inl, inr, refl, ◌∙◌, Bool, none, List, [], ◌∷◌, Error,
  Outcome, ok, err, arith,
}
use epoxy.Base.Dict.{Dict, lookup, insert, lookup-insert, lookup-nil, HasDistinctKeys}
use epoxy.Base.Exec.{on_err, on_failure, Keeps, Keeps-lift, Keeps-bind}
use epoxy.Base.Exec.Ensures.{
  Ends, Ensures, Ensures-bind, Ensures-pure, Ensures-if, Ensures-Keeps, Ensures-weaken,
}
use epoxy.Nextboot.Config.{V1}
use epoxy.Nextboot.Client.{Machine, Client, made, on_world, remove_file, create_temp, get_v1}
use epoxy.Nextboot.Files.{exists-delete, exists-made}
use epoxy.Nextboot.Load.{file_download}
use epoxy.Nextboot.Evaluate.{put_spec, download_file, download_files}
use epoxy.Nextboot.Evaluate.Files.{
  IsEntry, IsRecordedIn, IsRecorded, IsMade, get_v1-Ensures, get_v1-Keeps, IsEntry-kept,
  IsEntry-of_rest, put_spec-Ensures,
}

module _ {W : Type 0} (m : Machine W) (f : Str) where
  module _ (name : Str) (old : Dict Str) (rest : Dict (Dict Str)) where
    made-IsMade :
        (r : Outcome Error Str) (s : Client W) (w : W)
        → IsRecorded f ((name, old) ∷ rest) s
        → Ends
            (λ tmpfile. IsMade f tmpfile ((name, old) ∷ rest))
            (λ _. IsRecorded f ((name, old) ∷ rest))
            r
            (record s { files = made r s.files; world = w })
    made-IsMade (ok tmpfile) s w (v1, e, inl absent) = elim (exists-made f tmpfile s.files absent) [
      | inl same ↦ (v1, e, inl same)
      | inr still ↦ (v1, e, inr (inl still))
    ]
    made-IsMade (ok tmpfile) s w (v1, e, inr entry) = (v1, e, inr (inr entry))
    made-IsMade (err x) s w h = h

    create_temp-IsMade :
        (pattern : Str)
        → Ensures
            (IsRecorded f ((name, old) ∷ rest))
            (create_temp m pattern)
            (λ tmpfile. IsMade f tmpfile ((name, old) ∷ rest))
            (λ _. IsRecorded f ((name, old) ∷ rest))
    unfolding create_temp
    create_temp-IsMade pattern = record {
      at = λ s h. let (r, w) = m.temp_file pattern s.world in made-IsMade r s w h;
    }

    removed-IsRecorded :
        (tmpfile : Str) (s : Client W)
        → IsMade f tmpfile ((name, old) ∷ rest) s
        → IsRecorded f ((name, old) ∷ rest) (remove_file tmpfile s)
    unfolding remove_file
    removed-IsRecorded tmpfile s (v1, e, inl same) =
        (v1, e, inl (ground (arith, exists-delete f tmpfile s.files, eq_iff tmpfile f)))
    removed-IsRecorded tmpfile s (v1, e, inr (inl absent)) =
        (v1, e, inl (ground (arith, exists-delete f tmpfile s.files)))
    removed-IsRecorded tmpfile s (v1, e, inr (inr entry)) = (v1, e, inr entry)

    failed-IsRecorded :
        (r : Outcome Error (Unit {0})) (tmpfile : Str) (s : Client W)
        → IsMade f tmpfile ((name, old) ∷ rest) s
        → Ends
            (λ _. IsMade f tmpfile ((name, old) ∷ rest))
            (λ _. IsRecorded f ((name, old) ∷ rest))
            r
            (on_err r (remove_file tmpfile) s)
    failed-IsRecorded (ok u) tmpfile s h = h
    failed-IsRecorded (err e) tmpfile s h = removed-IsRecorded tmpfile s h

    file_download-IsMade :
        (tmpfile url : Str) (spec : Dict Str)
        → Keeps (IsMade f tmpfile ((name, old) ∷ rest)) (file_download m tmpfile url spec)
    unfolding file_download on_world
    file_download-IsMade tmpfile url spec =
        Keeps-bind _ _ (Keeps-lift _)
          λ _. Keeps-bind _ _ (Keeps-lift _) λ _. record { at = λ s h. h }

    downloaded-IsMade :
        (tmpfile url : Str) (spec : Dict Str)
        → Ensures
            (IsMade f tmpfile ((name, old) ∷ rest))
            (on_failure (file_download m tmpfile url spec) (remove_file tmpfile))
            (λ _. IsMade f tmpfile ((name, old) ∷ rest))
            (λ _. IsRecorded f ((name, old) ∷ rest))
    downloaded-IsMade tmpfile url spec = record {
      at = λ s h.
          let (r, s') = file_download m tmpfile url spec s in
          failed-IsRecorded r tmpfile s' ((file_download-IsMade tmpfile url spec).at s h);
    }

    new-IsEntry :
        (tmpfile : Str) (spec : Dict Str) (entries : Dict (Dict Str))
        → tmpfile ≡ f
        → lookup name rest ≡ none
        → IsEntry f (insert name (insert (ascii "name") tmpfile spec) entries) rest
    new-IsEntry tmpfile spec entries same fresh = record {
      key = name;
      spec = insert (ascii "name") tmpfile spec;
      there = lookup-insert name name _ entries ∙ simp eq_refl;
      named = lookup-insert (ascii "name") (ascii "name") tmpfile spec ∙ simp (eq_refl, same);
      other = fresh;
    }

    -- The last statement of a round gives the temporary file its entry.
    named-IsRecorded :
        (tmpfile : Str) (spec : Dict Str) (R : Error → Client W → Type 0)
        → lookup name rest ≡ none
        → Ensures
            (IsMade f tmpfile ((name, old) ∷ rest))
            (put_spec m name (insert (ascii "name") tmpfile spec))
            (λ _. IsRecorded f rest)
            R
    named-IsRecorded tmpfile spec R fresh =
        Ensures-bind get_v1 _
          (get_v1-Ensures m f
            (λ v1 files. (tmpfile ≡ f) ⊎ IsRecordedIn f ((name, old) ∷ rest) v1 files) _)
          λ v1. record {
            at = λ s (e, h). (
              record v1 { files = insert name (insert (ascii "name") tmpfile spec) v1.files },
              refl,
              after v1 s.files h,
            );
          }
      where
        after :
            (v1 : V1) (files : List Str)
            → (tmpfile ≡ f) ⊎ IsRecordedIn f ((name, old) ∷ rest) v1 files
            → IsRecordedIn f rest
                (record v1 { files = insert name (insert (ascii "name") tmpfile spec) v1.files })
                files
        after v1 files (inl same) = inr (new-IsEntry tmpfile spec v1.files same fresh)
        after v1 files (inr (inl absent)) = inl absent
        after v1 files (inr (inr entry)) =
            inr (
              IsEntry-of_rest m f name old rest _ (IsEntry-kept m f name old rest v1.files _ entry))

    download_file-Ensures :
        (dryrun : Bool)
        → lookup name rest ≡ none
        → Ensures
            (IsRecorded f ((name, old) ∷ rest))
            (download_file m dryrun name old)
            (λ _. IsRecorded f rest)
            (λ _. IsRecorded f ((name, old) ∷ rest))
    unfolding download_file
    download_file-Ensures dryrun fresh =
        let P : Client W → Type 0 = IsRecorded f ((name, old) ∷ rest) in
        Ensures-bind {Q = λ _. P} _ _ (Ensures-Keeps _ (Keeps-lift _)) λ template.
          Ensures-bind {Q = λ _. P} get_v1 _ (Ensures-Keeps _ (get_v1-Keeps m f P)) λ v1.
            Ensures-bind {Q = λ _. P} _ _ (Ensures-Keeps _ (record { at = λ s h. h })) λ url.
              Ensures-bind _ _ (put_spec-Ensures m f name old rest _) λ _.
                Ensures-bind _ _ (create_temp-IsMade _) λ tmpfile.
                  Ensures-bind {Q = λ _. IsMade f tmpfile ((name, old) ∷ rest)} _ _
                    (Ensures-if dryrun _ _ (λ _. Ensures-pure tt λ s h. h)
                      (λ _. downloaded-IsMade tmpfile _ _))
                    λ _. named-IsRecorded tmpfile _ _ fresh

  IsRecorded-forget :
      (rest : Dict (Dict Str)) (s : Client W) → IsRecorded f rest s → IsRecorded f [] s
  IsRecorded-forget rest s (v1, e, inl absent) = (v1, e, inl absent)
  IsRecorded-forget rest s (v1, e, inr entry) = (
    v1,
    e,
    inr (record {
      key = entry.key;
      spec = entry.spec;
      there = entry.there;
      named = entry.named;
      other = lookup-nil entry.key;
    }),
  )

  -- However the downloads end, a temporary file that is there has its name in the configuration.
  pub download_files-Ensures :
      (dryrun : Bool) (files : Dict (Dict Str))
      → HasDistinctKeys files
      → Ensures
          (IsRecorded f files)
          (download_files m dryrun files)
          (λ _. IsRecorded f [])
          (λ _. IsRecorded f [])
  unfolding download_files
  download_files-Ensures dryrun [] d = Ensures-pure tt λ s h. h
  download_files-Ensures dryrun ((name, spec) ∷ rest) (fresh, d) =
      Ensures-bind _ _
        (Ensures-weaken (download_file-Ensures name spec rest dryrun fresh) (λ s h. h) (λ a s h. h)
          (λ e s h. IsRecorded-forget _ s h))
        λ _. download_files-Ensures dryrun rest d

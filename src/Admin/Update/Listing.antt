-- ===== src/Admin/Update/Listing.antt =====
-- cmd/epoxy_admin/command/list.go: what is printed.
use epoxy.Base.{
  Str, ◌≡◌, ◌↔◌, inl, inr, refl, ◌∙◌, Option, some, Bool, true, ok, List, [], ◌∷◌, Listed, here,
  later, Bool-cases,
}
use epoxy.Base.Exec.{lift}
use epoxy.Base.Exec.Gives.{Gives, Gives-bind, Gives-lift, Gives-assume}
use epoxy.Storage.Host.{Host}
use epoxy.Storage.Datastore.{Key, list}
use epoxy.Admin.Tools.{Tools, connect}
use epoxy.Admin.Update.{matching, run_list}
use epoxy.Admin.Store.{
  IsAdministered, stored_in, IsOurs, connect-IsOurs, connect-keeps, IsKeyedIn, listed_stored,
  stored_listed,
}

Listed-head :
    (P : Host → Type 0) (h x : Host) (hosts : List Host)
    → Listed h (x ∷ hosts)
    → P x
    → ((Listed h hosts) → P h)
    → P h
Listed-head P h _ _ (here hosts) p k = p
Listed-head P h _ _ (later x hosts listed) p k = k listed

matching_keeps :
    (matches : Str → Bool) (h : Host) (hosts : List Host)
    → Listed h hosts
    → matches h.name ≡ true
    → Listed h (matching matches hosts)
unfolding matching
matching_keeps matches h _ (here hosts) e = rw e (here (matching matches hosts))
matching_keeps matches h _ (later x hosts listed) e =
    let rest = matching_keeps matches h hosts listed e in
    elim (Bool-cases (matches x.name)) [
      | inl e' ↦ rw e' (later x (matching matches hosts) rest)
      | inr e' ↦ rw e' rest
    ]

matching_given :
    (matches : Str → Bool) (hosts : List Host) (h : Host)
    → Listed h (matching matches hosts)
    → Listed h hosts × (matches h.name ≡ true)
unfolding matching
matching_given matches [] h listed = elim listed [ ]
matching_given matches (x ∷ hosts) h listed = elim (Bool-cases (matches x.name)) [
  | inl e ↦
      let listed' : Listed h (x ∷ matching matches hosts) = rw e at listed in
      Listed-head (λ k. Listed k (x ∷ hosts) × (matches k.name ≡ true)) h x _ listed'
        (here hosts, e)
        λ in_rest.
          let (there, matched) = matching_given matches hosts h in_rest in
          (later x hosts there, matched)
  | inr e ↦
      let listed' : Listed h (matching matches hosts) = rw e at listed in
      let (there, matched) = matching_given matches hosts h listed' in
      (later x hosts there, matched)
]

module _ {W : Type 0} (entity : W → Key → Option Host) (t : Tools W)
    (laws : IsAdministered entity t) (project : Str) where
  -- A list command that succeeds prints exactly the stored records whose names the pattern matches.
  -- Records are stored under their own names.
  run_list_lists :
      (w : W) (pattern : Str) (matches : Str → Bool) (printed : List Host) (h : Host)
      → IsKeyedIn entity w
      → t.compile pattern ≡ ok matches
      → (run_list t project pattern w).0 ≡ ok printed
      → Listed h printed ↔ ((stored_in entity w h.name ≡ some h) × (matches h.name ≡ true))
  unfolding run_list
  run_list_lists w₀ pattern matches printed h keyed compiled done =
      let block : Gives (λ w. entity w ≡ entity w₀) (run_list t project pattern)
          (λ out _.
            Listed h out ↔ ((stored_in entity w₀ h.name ≡ some h) × (matches h.name ≡ true))) =
        Gives-bind {Q = λ ds w. IsOurs entity ds × (entity w ≡ entity w₀)} (connect t project) _
          (record {
            at = λ w view ds made. (
              connect-IsOurs entity t laws project w ds made,
              connect-keeps entity t laws project w ∙ view,
            );
          })
          λ ds. Gives-assume λ ours.
            Gives-bind
              {Q = λ hosts _. (Listed h hosts ↔ (stored_in entity w₀ h.name ≡ some h)) × Unit}
              (list ds) _
              (record {
                at = λ w view hosts all.
                    let keyed' : IsKeyedIn entity w = rw view keyed in
                    let there : Listed h hosts ↔ (stored_in entity w h.name ≡ some h) = (
                      λ listed. listed_stored entity ds ours w hosts h keyed' all listed,
                      λ found. stored_listed entity ds ours w hosts h.name h all found,
                    ) in
                    (rw (← view) there, tt);
              })
              λ hosts. Gives-assume λ stored.
                Gives-bind (lift (t.compile pattern)) _ (Gives-lift _) λ matches'. record {
                  at = λ w (e, _) out ended.
                      let same : matching matches hosts ≡ out = cc in
                      rw (← same) (
                        λ listed.
                            let (there, matched) = matching_given matches hosts h listed in
                            (stored.0 there, matched),
                        λ (there, matched). matching_keeps matches h hosts (stored.1 there) matched,
                      );
                } in
      block.at w₀ refl printed done

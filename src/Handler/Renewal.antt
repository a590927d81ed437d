-- ===== src/Handler/Renewal.antt =====
-- Host.GenerateSessionIDs in a handler: the record gets new session IDs, the store is not touched.
use epoxy.Base.{Str, ◌≡◌, refl, ◌∙◌, Option, Error, Outcome, ok, err}
use epoxy.Base.Exec.{Keeps, Keeps-pure, Keeps-bind}
use epoxy.Base.Exec.Ensures.{Ends, Ensures}
use epoxy.Go.Base64
use epoxy.Storage.Host.{random_session_byte_count, Host, generate_session_id, generate_session_ids}
use epoxy.Storage.Sessions.{IsRuntime, AreSessionIds, generate_session_ids-AreSessionIds}
use epoxy.Handler.Server.{Context}
use epoxy.Handler.Store.{IsStore, SameSetup}
use epoxy.Handler.Setup.{SameSetup-ids}

module _ {W : Type 0} (c : Context W) (stored : W → Str → Option Host)
    (laws : IsStore stored c.env.config c.runtime) (good : IsRuntime c.runtime)
    (v : Str → Option Host) where
  generate_session_id-Keeps : Keeps (λ w. stored w ≡ v) (generate_session_id c.runtime)
  unfolding generate_session_id
  generate_session_id-Keeps =
      Keeps-bind (c.runtime.rand_read random_session_byte_count) _
        (record { at = λ w h. laws.rand_keeps random_session_byte_count w ∙ h })
        λ b. Keeps-pure (Base64.encode b)

  generate_session_ids-Keeps :
      (h : Host) → Keeps (λ w. stored w ≡ v) (generate_session_ids c.runtime h)
  unfolding generate_session_ids
  generate_session_ids-Keeps h =
      let id = generate_session_id c.runtime in
      let keeps = generate_session_id-Keeps in
      Keeps-bind id _ keeps λ _. Keeps-bind id _ keeps λ _. Keeps-bind id _ keeps λ _.
        Keeps-bind id _ keeps λ _.
          Keeps-bind c.runtime.time_now _ (record { at = λ w h. laws.time_keeps w ∙ h })
            λ _. Keeps-pure _

  pub ids-Ensures :
      (h : Host)
      → Ensures
          (λ w. stored w ≡ v)
          (generate_session_ids c.runtime h)
          (λ h' w. (SameSetup h h' × AreSessionIds h'.current_session_ids) × (stored w ≡ v))
          (λ _ w. stored w ≡ v)
  ids-Ensures h = record {
    at = λ w e.
        ends w ((generate_session_ids-Keeps h).at w e) (generate_session_ids c.runtime h w).0 refl;
  }
    where
      ends :
          (w : W)
          → stored (generate_session_ids c.runtime h w).1 ≡ v
          → (r : Outcome Error Host) → (generate_session_ids c.runtime h w).0 ≡ r
          → Ends
              (λ h' w'. (SameSetup h h' × AreSessionIds h'.current_session_ids) × (stored w' ≡ v))
              (λ _ w'. stored w' ≡ v)
              r
              (generate_session_ids c.runtime h w).1
      ends w e (ok h') p =
          let (fresh, same) = generate_session_ids-AreSessionIds c.runtime good h h' w p in
          ((SameSetup-ids h h' same, fresh), e)
      ends w e (err x) p = e

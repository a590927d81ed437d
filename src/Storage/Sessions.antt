-- ===== src/Storage/Sessions.antt =====
-- The session IDs that a stage1 request generates (storage/host.go).
use epoxy.Base.{◌+◌, ◌*◌, ◌≤◌, ℕ, ◌≡◌, Str, true, [], ◌∷◌, ok, Error, All, length, arith}
use mathlib.Core.Path.{subst}
use epoxy.Base.Exec.{Exec, bind-eq-ok}
use epoxy.Go.Base64
use epoxy.Go.Base64.RoundTrip.{AreBytes, encode-injective, is_url_safe, encode-is_url_safe}
use epoxy.Storage.Host.{
  Host, SessionIds, Runtime, random_session_byte_count, generate_session_id, generate_session_ids,
}

-- What is assumed of crypto/rand.Read: without an error it fills the whole buffer with bytes.
pub record IsRuntime {W : Type 0} (rt : Runtime W) : Type 0 where
  pub fills : (n : ℕ) (w : W) (b : Str) → (rt.rand_read n w).0 ≡ ok b → (length b ≡ n) × AreBytes b

-- A session ID: 27 characters of the URL-safe alphabet, so it is one segment of a URL's path.
pub record IsSessionId (id : Str) : Type 0 where
  pub size : length id ≡ 27
  pub url_safe : All (λ c. is_url_safe c ≡ true) id

length-encode_bounds :
    (b : Str)
    → (length b * 4 ≤ length (Base64.encode b) * 3)
      × (length (Base64.encode b) * 3 ≤ length b * 4 + 2)
unfolding Base64.encode
length-encode_bounds [] = omega arith
length-encode_bounds (a ∷ []) = omega arith
length-encode_bounds (a ∷ b ∷ []) = omega arith
length-encode_bounds (a ∷ b ∷ c ∷ s) = omega (arith, length-encode_bounds s)

length-encode : (b : Str) → length b ≡ 20 → length (Base64.encode b) ≡ 27
length-encode b h = omega (arith, length-encode_bounds b)

-- Four well-formed session IDs.
pub record AreSessionIds (ids : SessionIds) : Type 0 where
  pub stage2 : IsSessionId ids.stage2_id
  pub stage3 : IsSessionId ids.stage3_id
  pub report : IsSessionId ids.report_id
  pub extension : IsSessionId ids.extension_id

module _ {W : Type 0} (rt : Runtime W) (good : IsRuntime rt) where
  generate_session_id-IsSessionId :
      (w : W) (id : Str) → (generate_session_id rt w).0 ≡ ok id → IsSessionId id
  unfolding generate_session_id
  generate_session_id-IsSessionId w id h =
      let (b, read, same) = bind-eq-ok (rt.rand_read random_session_byte_count) _ w h in
      let (full, bytes) = good.fills 20 w b read in
      let id' : IsSessionId (Base64.encode b) = record {
        size = length-encode b full;
        url_safe = encode-is_url_safe b bytes;
      } in
      subst IsSessionId (ground arith) id'

  -- If a stage1 request gets its session IDs, each is 27 URL-safe characters, and nothing of the
  -- host's record changes but these IDs and the time of their creation. The source of random bytes
  -- fills its buffer with bytes.
  pub generate_session_ids-AreSessionIds :
      (h h' : Host) (w : W)
      → (generate_session_ids rt h w).0 ≡ ok h'
      → AreSessionIds h'.current_session_ids
        × (h' ≡ record h {
          current_session_ids = h'.current_session_ids;
          last_session_creation = h'.last_session_creation;
        })
  unfolding generate_session_ids
  generate_session_ids-AreSessionIds h h' w e =
      let id : Exec W Error Str = generate_session_id rt in
      let (a, ea, e₁) = bind-eq-ok id _ w e in
      let w₁ = (id w).1 in
      let (b, eb, e₂) = bind-eq-ok id _ w₁ e₁ in
      let w₂ = (id w₁).1 in
      let (c, ec, e₃) = bind-eq-ok id _ w₂ e₂ in
      let w₃ = (id w₂).1 in
      let (d, ed, e₄) = bind-eq-ok id _ w₃ e₃ in
      let w₄ = (id w₃).1 in
      let (now, en, e₅) = bind-eq-ok rt.time_now _ w₄ e₄ in
      let ids : AreSessionIds
          (record { stage2_id = a; stage3_id = b; report_id = c; extension_id = d }) =
        record {
          stage2 = generate_session_id-IsSessionId w a ea;
          stage3 = generate_session_id-IsSessionId w₁ b eb;
          report = generate_session_id-IsSessionId w₂ c ec;
          extension = generate_session_id-IsSessionId w₃ d ed;
        } in
      (subst AreSessionIds (ground arith) ids, ground arith)

  -- Two session IDs are equal only if they were made of the same random bytes. The source of
  -- random bytes fills its buffer with bytes.
  generate_session_id-injective :
      (w w' : W) (id : Str)
      → (generate_session_id rt w).0 ≡ ok id
      → (generate_session_id rt w').0 ≡ ok id
      → (rt.rand_read random_session_byte_count w).0 ≡ (rt.rand_read random_session_byte_count w').0
  unfolding generate_session_id
  generate_session_id-injective w w' id h h' =
      let (b, read, same) = bind-eq-ok (rt.rand_read random_session_byte_count) _ w h in
      let (b', read', same') = bind-eq-ok (rt.rand_read random_session_byte_count) _ w' h' in
      let equal =
        encode-injective b b' (good.fills 20 w b read).1 (good.fills 20 w' b' read').1
          (ground arith) in
      cc

-- ===== src/Nextboot/Load/Chains.antt =====
-- nextboot/v1.go: maybeLoadChain ends where no chain leads back.
use epoxy.Base.{
  ℕ, zero, suc, ◌<◌, ◌≤◌, Str, Bool, false, ascii, ◌==◌, ◌≡◌, ◌≢◌, refl, Option, none, some, [],
  arith, ok, Bool-cases, inl, inr,
}
use epoxy.Base.Exec.{◌>>◌, bind-eq-ok}
use epoxy.Nextboot.Config.{V1}
use epoxy.Nextboot.Client.{Machine, Client, deref, get_v1}
use epoxy.Nextboot.Load.{load_action, maybe_load_chain}

-- Chains are not circular: every URL has a depth of at most `bound`, and whatever configuration is
-- loaded from it names no other, or one of lower depth.
pub record IsAcyclic {W : Type 0} (m : Machine W) (bound : ℕ) : Type 0 where
  pub depth : Str → ℕ
  pub bounded : (url : Str) → depth url ≤ bound
  pub descends :
      (url method : Str) (add_kargs : Bool) (s : Client W) (v1 : V1)
      → (load_action m url method add_kargs s).0 ≡ ok tt
      → (load_action m url method add_kargs s).1.config.v1 ≡ some v1
      → (v1.chain == []) ≡ false
      → depth v1.chain < depth url

module _ {W : Type 0} (m : Machine W) (bound : ℕ) (chains : IsAcyclic m bound) where
  -- The next link, if there is one, has a depth below `n`.
  abbrev pub LinksBelow : ℕ → Client W → Type 0
  LinksBelow n s =
      (v1 : V1) → s.config.v1 ≡ some v1 → (v1.chain == []) ≡ false → chains.depth v1.chain < n

  deref-some : (o : Option V1) (v1 : V1) → deref o ≡ ok v1 → o ≡ some v1
  deref-some none v1 e = cc
  deref-some (some x) v1 e = let same : x ≡ v1 = cc in rw same refl

  pub loaded_links :
      (n : ℕ) (url method : Str) (add_kargs : Bool) (s : Client W)
      → chains.depth url < suc n
      → (load_action m url method add_kargs s).0 ≡ ok tt
      → LinksBelow n (load_action m url method add_kargs s).1
  loaded_links n url method add_kargs s h e v1 there more =
      let down = chains.descends url method add_kargs s v1 e there more in omega arith

  linked :
      (n : ℕ) (url : Str) (s : Client W)
      → chains.depth url < suc n
      → ((s' : Client W) → LinksBelow n s' → (maybe_load_chain m (suc n) s').0 ≢ ok false)
      → ((load_action m url (ascii "GET") false >> maybe_load_chain m (suc n)) s).0 ≢ ok false
  linked n url s h ends e =
      let (u, done, rest) = bind-eq-ok (load_action m url (ascii "GET") false) _ s e in
      ends _ (loaded_links n url (ascii "GET") false s h done) rest

  -- With one round more than the depths that are left, the loop ends.
  pub maybe_load_chain_ends :
      (n : ℕ) (s : Client W) → LinksBelow n s → (maybe_load_chain m (suc n) s).0 ≢ ok false
  unfolding maybe_load_chain ascii get_v1
  maybe_load_chain_ends zero s below e =
      let (v1, got, rest) = bind-eq-ok get_v1 _ s e in
      let there = deref-some s.config.v1 v1 got in
      elim (Bool-cases (v1.chain == [])) [
        | inl last ↦ let rest' = rw last at rest in cc rest'
        | inr more ↦ let h = below v1 there more in absurd (omega arith)
      ]
  maybe_load_chain_ends (suc n) s below e =
      let (v1, got, rest) = bind-eq-ok get_v1 _ s e in
      let there = deref-some s.config.v1 v1 got in
      elim (Bool-cases (v1.chain == [])) [
        | inl last ↦ let rest' = rw last at rest in cc rest'
        | inr more ↦
            let rest' = rw more at rest in
            linked n v1.chain s (below v1 there more) (λ s' low. maybe_load_chain_ends n s' low)
              rest'
      ]

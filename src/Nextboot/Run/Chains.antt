-- ===== src/Nextboot/Run/Chains.antt =====
-- nextboot/v1.go: the chain of a run ends.
use epoxy.Base.{ℕ, suc, Str, ascii, Bool, true, false, ◌≡◌, ◌≢◌, refl, ok, arith, if◌then◌else◌}
use epoxy.Base.Dict.{lookup}
use epoxy.Base.Exec.{lift, pure, ◌>>◌, bind-eq-ok}
use epoxy.Nextboot.Client.{Machine, Client, Action}
use epoxy.Nextboot.Load.{load_action, maybe_load_chain}
use epoxy.Nextboot.Load.Chains.{IsAcyclic, loaded_links, maybe_load_chain_ends}
use epoxy.Nextboot.Run.{run_commands, url_of, run}

module _ {W : Type 0} where
  true_ended :
      (ended : Bool) (first : Action W (Unit {0})) (s : Client W)
      → ((if ended then (first >> pure true) else pure false) s).0 ≡ ok false
      → ended ≡ false
  true_ended false first s e = refl
  true_ended true first s e = let (u, _, last) = bind-eq-ok first _ s e in cc last

module _ {W : Type 0} (m : Machine W) (bound : ℕ) (chains : IsAcyclic m bound) where
  -- With one round more than the bound on depths, the chain of a run ends.
  pub run_ends :
      (action : Str) (add_kargs dryrun : Bool) (s : Client W)
      → (run m (suc bound) action add_kargs dryrun s).0 ≢ ok false
  unfolding run ascii
  run_ends action add_kargs dryrun s e =
      let (kargs, _, e₁) = bind-eq-ok (λ s. (ok s.config.kargs, s)) _ s e in
      let (url, _, e₂) = bind-eq-ok (lift (url_of m (lookup action kargs))) _ s e₁ in
      let (u, done, e₃) = bind-eq-ok (load_action m url (ascii "POST") add_kargs) _ s e₂ in
      let s₁ = (load_action m url (ascii "POST") add_kargs s).1 in
      let (ended, outcome, e₄) = bind-eq-ok (maybe_load_chain m (suc bound)) _ s₁ e₃ in
      let low = chains.bounded url in
      let last = true_ended ended (run_commands m dryrun) _ e₄ in
      let unended : (maybe_load_chain m (suc bound) s₁).0 ≡ ok false = cc in
      maybe_load_chain_ends m bound chains bound s₁
        (loaded_links m bound chains bound url (ascii "POST") add_kargs s (omega arith) done)
        unended

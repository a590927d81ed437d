-- ===== src/Admin/Sync/Laws.antt =====
-- cmd/epoxy_admin/command/sync.go: what the loop over the machines does to the record of one name.
use epoxy.Base.{
  Str, ◌==◌, eq_iff, eq_refl, ◌≡◌, inl, inr, refl, sym, Option, some, true, false, not, ok, List,
  [], ◌∷◌, Listed, here, later, arith, Bool-cases,
}
use epoxy.Base.Exec.{Keeps, Keeps-bind, Keeps-pure, Keeps-if}
use epoxy.Base.Exec.Gives.{Gives, Gives-bind, Gives-if}
use epoxy.Storage.Host.{Host}
use epoxy.Storage.Datastore.{Key}
use epoxy.Admin.Tools.{SiteMachine, Tools}
use epoxy.Admin.Create.{run_create}
use epoxy.Admin.Create.Record.{CreateFlags, new_host}
use epoxy.Admin.Create.Laws.{run_create-Keeps, run_create-Gives}
use epoxy.Admin.Sync.{is_hostname_in_datastore, sync_machines}
use epoxy.Admin.Store.{IsAdministered, Holds}

pub Listed-is_hostname_in_datastore :
    (h : Host) (entities : List Host)
    → Listed h entities
    → is_hostname_in_datastore h.name entities ≡ true
unfolding is_hostname_in_datastore
Listed-is_hostname_in_datastore h _ (here hosts) = simp eq_refl
Listed-is_hostname_in_datastore h _ (later x hosts listed) =
    let rest = Listed-is_hostname_in_datastore h hosts listed in ground arith

pub is_hostname_in_datastore-Listed :
    (n : Str) (entities : List Host)
    → is_hostname_in_datastore n entities ≡ true
    → (h : Host) × Listed h entities × (h.name ≡ n)
unfolding is_hostname_in_datastore
is_hostname_in_datastore-Listed n [] e = cc
is_hostname_in_datastore-Listed n (x ∷ hosts) e = elim (Bool-cases (n == x.name)) [
  | inl same ↦ (x, here hosts, sym ((eq_iff n x.name).0 same))
  | inr differs ↦
      let (h, listed, name) = is_hostname_in_datastore-Listed n hosts (ground arith) in
      (h, later x hosts listed, name)
]

-- The flags that runCreate finds set.
abbrev pub machine_flags : CreateFlags → SiteMachine → CreateFlags
machine_flags flags m = record flags { hostname = m.hostname; address = m.ipv4 }

module _ {W : Type 0} (entity : W → Key → Option Host) (t : Tools W)
    (laws : IsAdministered entity t) (project : Str) (flags : CreateFlags)
    (entities : List Host) where
  -- What is created for the machines named `n` has the property.
  abbrev pub Creates : Str → (Option Host → Type 0) → List SiteMachine → Type 0
  Creates n R machines =
      (m : SiteMachine)
      → Listed m machines
      → m.project ≡ project
      → is_hostname_in_datastore m.hostname entities ≡ false
      → m.hostname ≡ n
      → (h : Host) → new_host t project (machine_flags flags m) ≡ ok h
      → R (some h)

  pub sync_machines-Keeps :
      (n : Str) (R : Option Host → Type 0) (machines : List SiteMachine)
      → Creates n R machines
      → Keeps (Holds entity n R) (sync_machines t project flags entities machines)
  unfolding sync_machines
  sync_machines-Keeps n R [] new = Keeps-pure tt
  sync_machines-Keeps n R (m ∷ machines) new =
      let rest = sync_machines-Keeps n R machines (λ k listed. new k (later m machines listed)) in
      Keeps-if (not (m.project == project)) _ _ (λ _. rest)
        λ ours.
          Keeps-if (is_hostname_in_datastore m.hostname entities) _ _ (λ _. rest)
            λ absent.
              Keeps-bind (run_create t project (machine_flags flags m)) _
                (run_create-Keeps entity t laws project n R (machine_flags flags m) (λ h e same.
                  new m (here machines) ((eq_iff m.project project).0 (ground arith)) absent same h
                    e))
                (λ _. rest)

  pub sync_machines-Gives :
      (m : SiteMachine) (R : Option Host → Type 0) (machines : List SiteMachine)
      → Listed m machines
      → m.project ≡ project
      → is_hostname_in_datastore m.hostname entities ≡ false
      → Creates m.hostname R machines
      → Gives
          (λ _. Unit)
          (sync_machines t project flags entities machines)
          (λ _. Holds entity m.hostname R)
  unfolding sync_machines
  sync_machines-Gives m R _ (here machines) ours absent new =
      let made = (eq_iff m.project project).1 ours in
      Gives-if (not (m.project == project)) _ _ (λ e. ground arith)
        λ _.
          Gives-if (is_hostname_in_datastore m.hostname entities) _ _ (λ e. ground arith)
            λ _.
              Gives-bind (run_create t project (machine_flags flags m)) _
                (run_create-Gives entity t laws project (machine_flags flags m))
                λ _. record {
                  at = λ w (h, e, there) u _.
                      (sync_machines-Keeps m.hostname R machines
                          (λ k listed. new k (later m machines listed))).at
                        w (rw there (new m (here machines) ours absent refl h e));
                }
  sync_machines-Gives m R _ (later x machines listed) ours absent new =
      let rest =
        sync_machines-Gives m R machines listed ours absent
          (λ k in_rest. new k (later x machines in_rest)) in
      Gives-if (not (x.project == project)) _ _ (λ _. rest)
        λ _.
          Gives-if (is_hostname_in_datastore x.hostname entities) _ _ (λ _. rest)
            λ _.
              Gives-bind (run_create t project (machine_flags flags x)) _
                (record { at = λ _ _ _ _. tt }) λ _. rest

-- ===== src/Handler/Steps.antt =====
-- The steps of which the handlers are made: load the record and check the caller, save. What each
-- does to the stored records and establishes for the next.
use epoxy.Base.{
  Str, ◌==◌, eq_iff, ◌≡◌, ◌⊎◌, inl, inr, refl, ap, ◌∙◌, Option, some, Error, Outcome, ok, err,
  if◌then◌else◌, arith, Bool-cases,
}
use epoxy.Base.Exec.{Exec, lift}
use epoxy.Base.Exec.Ensures.{Ends, Ensures, Ensures-bind, Ensures-pure}
use epoxy.Storage.Host.{Host}
use epoxy.Storage.Sessions.{IsRuntime}
use epoxy.Handler.Server.{
  Request, Reply, Server, Context, http_failure, or_reply, try, count_stage1, hostname,
}
use epoxy.Handler.Access.{request_is_from_host}
use epoxy.Handler.Boot.{load_host}
use epoxy.Handler.Store.{IsStore, SameSetup}

module _ {W A : Type 0} (reply : Error → Reply) where
  Ends-or_reply :
      (Q : A → W → Type 0) (R : W → Type 0) (s : Server W) (r : Outcome Error A) (w : W)
      → Ends Q (λ _. R) r w
      → Ends
          (λ a (s' : Server W). Q a s'.world)
          (λ _ s'. R s'.world)
          (or_reply reply r)
          (record s { world = w })
  Ends-or_reply Q R s (ok a) w h = h
  Ends-or_reply Q R s (err e) w h = h

  pub try-Ensures :
      {P R : W → Type 0} {Q : A → W → Type 0} (m : Exec W Error A)
      → Ensures P m Q (λ _. R)
      → Ensures (λ (s : Server W). P s.world) (try reply m) (λ a s. Q a s.world) (λ _ s. R s.world)
  unfolding try
  try-Ensures {R} {Q} m spec = record {
    at = λ s h. let (r, w) = m s.world in Ends-or_reply Q R s r w (spec.at s.world h);
  }

module _ {W : Type 0} (c : Context W) (stored : W → Str → Option Host)
    (laws : IsStore stored c.env.config c.runtime) (good : IsRuntime c.runtime)
    (v : Str → Option Host) where
  -- The stored records are those of `v`.
  abbrev pub View : Server W → Type 0
  View s = stored s.world ≡ v

  -- The record `h` is stored under the name in the request, and the request comes from its address.
  pub record IsAuthorised (req : Request) (h : Host) : Type 0 where
    pub loaded : v (hostname req) ≡ some h
    pub from_host : request_is_from_host c.net c.env req h ≡ ok tt

  load_view :
      (name : Str)
      → Ensures
          (λ w. stored w ≡ v)
          (c.env.config.load name)
          (λ h w. (v name ≡ some h) × (stored w ≡ v))
          (λ _ w. stored w ≡ v)
  load_view name = record { at = λ w h. ends w h (c.env.config.load name w).0 refl }
    where
      ends :
          (w : W)
          → stored w ≡ v
          → (r : Outcome Error Host) → (c.env.config.load name w).0 ≡ r
          → Ends
              (λ h w'. (v name ≡ some h) × (stored w' ≡ v))
              (λ _ w'. stored w' ≡ v)
              r
              (c.env.config.load name w).1
      ends w h (ok a) e = (rw (← h) (laws.load_found name w a e), laws.load_keeps name w ∙ h)
      ends w h (err x) e = laws.load_keeps name w ∙ h

  checked :
      (req : Request) (h : Host) (r : Outcome Error (Unit {0}))
      → request_is_from_host c.net c.env req h ≡ r
      → v (hostname req) ≡ some h
      → (s : Server W) → View s
      → Ends
          (λ (_ : Unit {0}) s'. IsAuthorised req h × View s')
          (λ _. View)
          (or_reply (http_failure 403) r)
          s
  checked req h (ok u) e l s view = (record { loaded = l; from_host = e }, view)
  checked req h (err x) e l s view = view

  -- Whatever the outcome the stored records are as before; a record that is returned is the stored
  -- one of a host that the request comes from.
  pub load_host-Ensures :
      (req : Request)
      → Ensures View (load_host c req) (λ h s. IsAuthorised req h × View s) (λ _. View)
  unfolding load_host
  load_host-Ensures req =
      Ensures-bind _ _
        (try-Ensures (http_failure 404) (c.env.config.load (hostname req))
          (load_view (hostname req)))
        λ h.
          Ensures-bind (lift (or_reply (http_failure 403) (request_is_from_host c.net c.env req h)))
            _
            (record {
              at = λ s p. checked req h (request_is_from_host c.net c.env req h) refl p.0 s p.1;
            })
            λ _. Ensures-pure h λ s p. p

  -- The records of `v`, but with `h` under its name.
  abbrev pub Replaced : Host → Server W → Type 0
  Replaced h s = (j : Str) → stored s.world j ≡ (if h.name == j then some h else v j)

  -- What stands under the name `j` after a request: a new record of the host that sent it, with the
  -- setup that it had.
  pub record IsRewritten (req : Request) (s : Server W) (j : Str) : Type 0 where
    pub old : Host
    pub new : Host
    pub authorised : IsAuthorised req old
    pub setup : SameSetup old new
    pub name : new.name ≡ j
    pub saved : stored s.world j ≡ some new

  abbrev pub Touched : Request → Server W → Type 0
  Touched req s = (j : Str) → (stored s.world j ≡ v j) ⊎ IsRewritten req s j

  pub View-Touched : (req : Request) (s : Server W) → View s → Touched req s
  View-Touched req s view j = inl (ap (λ (f : Str → Option Host). f j) view)

  module _ (req : Request) (s : Server W) (old new : Host) (a : IsAuthorised req old)
      (setup : SameSetup old new) where
    Touched_at :
        (j : Str)
        → stored s.world j ≡ (if new.name == j then some new else v j)
        → (stored s.world j ≡ v j) ⊎ IsRewritten req s j
    Touched_at j e = elim (Bool-cases (new.name == j)) [
      | inl same ↦ inr (record {
        old = old;
        new = new;
        authorised = a;
        setup = setup;
        name = (eq_iff new.name j).0 same;
        saved = ground arith;
      })
      | inr other ↦ inl (ground arith)
    ]

    pub Replaced-Touched : Replaced new s → Touched req s
    Replaced-Touched r j = Touched_at j (r j)

  pub count_stage1-Ensures :
      (X : Type 0) (name : Str)
      → Ensures (λ s. X × View s) (count_stage1 name) (λ _ s. X × View s) (λ _. View)
  unfolding count_stage1
  count_stage1-Ensures X name = record { at = λ s h. h }

  -- A save: on success the record is replaced, and on an error at most that record has changed.
  pub save-Ensures :
      (reply : Error → Reply) (req : Request) (old h : Host)
      → Ensures
          (λ s. (IsAuthorised req old × SameSetup old h) × View s)
          (try reply (c.env.config.save h))
          (λ _ s. Replaced h s)
          (λ _ s. Touched req s)
  unfolding try
  save-Ensures reply req old h = record {
    at = λ s p. ends s p.0.0 p.0.1 p.1 (c.env.config.save h s.world).0 refl;
  }
    where
      unchanged : (s : Server W) (j : Str) → View s → stored s.world j ≡ v j
      unchanged s j view = ap (λ (f : Str → Option Host). f j) view

      ends :
          (s : Server W)
          → IsAuthorised req old
          → SameSetup old h
          → View s
          → (r : Outcome Error (Unit {0})) → (c.env.config.save h s.world).0 ≡ r
          → Ends
              (λ _. Replaced h)
              (λ _. Touched req)
              (or_reply reply r)
              (record s { world = (c.env.config.save h s.world).1 })
      ends s a setup view (ok u) e =
          λ j. ground (arith, laws.save_ok h s.world j e, unchanged s j view)
      ends s a setup view (err x) e = λ j. elim (laws.save_err h s.world x j e) [
        | inl same ↦ inl (same ∙ unchanged s j view)
        | inr new ↦ Touched_at req _ old h a setup j (ground (arith, new, unchanged s j view))
      ]

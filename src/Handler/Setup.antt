-- ===== src/Handler/Setup.antt =====
-- What no handler changes of a record.
use epoxy.Base.{List, Str, ◌≡◌, refl, ◌∙◌, ap, arith}
use epoxy.Base.Dict.{Dict}
use epoxy.Storage.Host.{Host, Time}
use epoxy.Storage.Information.{add_information}
use epoxy.Storage.Information.Laws.{add_information_frame}
use epoxy.Handler.Boot.{reported}
use epoxy.Handler.Store.{SameSetup}

pub SameSetup-add_information :
    (values : Dict (List Str)) (h : Host) → SameSetup h (add_information values h)
SameSetup-add_information values h = rw (add_information_frame values h) (record {
  name = refl;
  ipv4_addr = refl;
  boot = refl;
  update = refl;
  images_version = refl;
  extensions = refl;
  stays_off = λ off. off;
})

pub SameSetup-trans : {a b c : Host} → SameSetup a b → SameSetup b c → SameSetup a c
SameSetup-trans p q = record {
  name = q.name ∙ p.name;
  ipv4_addr = q.ipv4_addr ∙ p.ipv4_addr;
  boot = q.boot ∙ p.boot;
  update = q.update ∙ p.update;
  images_version = q.images_version ∙ p.images_version;
  extensions = q.extensions ∙ p.extensions;
  stays_off = λ off. q.stays_off (p.stays_off off);
}

pub SameSetup-refl : (h : Host) → SameSetup h h
SameSetup-refl h = record {
  name = refl;
  ipv4_addr = refl;
  boot = refl;
  update = refl;
  images_version = refl;
  extensions = refl;
  stays_off = λ off. off;
}

pub SameSetup-reported :
    (message : Str) (now : Time) (h : Host) → SameSetup h (reported message now h)
unfolding reported
SameSetup-reported message now h = ground arith

pub SameSetup-ids :
    (h h' : Host)
    → h' ≡ record h {
      current_session_ids = h'.current_session_ids;
      last_session_creation = h'.last_session_creation;
    }
    → SameSetup h h'
SameSetup-ids h h' e = record {
  name = ap (λ (x : Host). x.name) e;
  ipv4_addr = ap (λ (x : Host). x.ipv4_addr) e;
  boot = ap (λ (x : Host). x.boot) e;
  update = ap (λ (x : Host). x.update) e;
  images_version = ap (λ (x : Host). x.images_version) e;
  extensions = ap (λ (x : Host). x.extensions) e;
  stays_off = λ off. ap (λ (x : Host). x.update_enabled) e ∙ off;
}

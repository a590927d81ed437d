-- ===== src/Handler/Store.antt =====
-- The abstract view of the server's storage that its handlers rely on: one record under each name.
use epoxy.Base.{ℕ, Str, ◌==◌, ◌≡◌, ◌⊎◌, Option, some, Error, ok, err, if◌then◌else◌, false}
use epoxy.Storage.Host.{Host, Runtime}
use epoxy.Handler.Server.{HostConfig}

-- What a record's owner configured. Clients may only switch `update_enabled` off.
pub record SameSetup (h h' : Host) : Type 0 where
  pub name : h'.name ≡ h.name
  pub ipv4_addr : h'.ipv4_addr ≡ h.ipv4_addr
  pub boot : h'.boot ≡ h.boot
  pub update : h'.update ≡ h.update
  pub images_version : h'.images_version ≡ h.images_version
  pub extensions : h'.extensions ≡ h.extensions
  pub stays_off : h.update_enabled ≡ false → h'.update_enabled ≡ false

-- The laws of the storage interface, for a view `stored` of the world: loads read it and do not
-- change it; a save that succeeds replaces one record; one that fails may have replaced it or not.
-- Random bytes and the clock are no part of it.
pub record IsStore {W : Type 0} (stored : W → Str → Option Host) (config : HostConfig W)
    (rt : Runtime W) : Type 0 where
  pub load_keeps : (name : Str) (w : W) → stored (config.load name w).1 ≡ stored w
  pub load_found :
      (name : Str) (w : W) (h : Host) → (config.load name w).0 ≡ ok h → stored w name ≡ some h
  pub save_ok :
      (h : Host) (w : W) (j : Str)
      → (config.save h w).0 ≡ ok tt
      → stored (config.save h w).1 j ≡ (if h.name == j then some h else stored w j)
  pub save_err :
      (h : Host) (w : W) (e : Error) (j : Str)
      → (config.save h w).0 ≡ err e
      → (stored (config.save h w).1 j ≡ stored w j)
        ⊎ (stored (config.save h w).1 j ≡ (if h.name == j then some h else stored w j))
  pub rand_keeps : (n : ℕ) (w : W) → stored (rt.rand_read n w).1 ≡ stored w
  pub time_keeps : (w : W) → stored (rt.time_now w).1 ≡ stored w

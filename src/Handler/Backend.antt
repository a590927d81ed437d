-- ===== src/Handler/Backend.antt =====
-- storage.DatastoreConfig as the server's storage (cmd/epoxy_boot_server/main.go passes it to the
-- handlers): the laws of the interface follow from those of the Datastore.
use epoxy.Base.{ℕ, ◌≡◌, ap, Option}
use epoxy.Storage.Host.{Host, Runtime}
use epoxy.Storage.Datastore.{Key, DatastoreConfig, name_key, load, save}
use epoxy.Storage.Datastore.Laws.{
  IsDatastore, stored_by, load_keeps_lem, load_found_lem, save_ok_lem, save_err_lem,
}
use epoxy.Handler.Server.{HostConfig}
use epoxy.Handler.Store.{IsStore}

-- Random bytes and the clock do not touch the Datastore.
pub record IsQuiet {W : Type 0} (entity : W → Key → Option Host) (rt : Runtime W) : Type 0 where
  pub rand_keeps : (n : ℕ) (w : W) → entity (rt.rand_read n w).1 ≡ entity w
  pub time_keeps : (w : W) → entity (rt.time_now w).1 ≡ entity w

-- `dsCfg` as a handler.Config
unfoldable pub host_config : {W : Type 0} → DatastoreConfig W → HostConfig W
host_config c = record { save = save c; load = load c }

module _ {W : Type 0} (entity : W → Key → Option Host) (c : DatastoreConfig W) (rt : Runtime W)
    (d : IsDatastore entity c.client) (quiet : IsQuiet entity rt) where
  -- A DatastoreConfig over a Datastore client with the laws `IsDatastore` has, beside random bytes and
  -- a clock that do not touch the Datastore, the laws `IsStore` of a store of hosts by name: a load
  -- that succeeds finds the stored host and changes nothing, a save that succeeds replaces the host of
  -- that name and no other.
  pub host_config-IsStore : IsStore (stored_by entity c) (host_config c) rt
  unfolding host_config
  host_config-IsStore = record {
    load_keeps = load_keeps_lem entity c d;
    load_found = load_found_lem entity c d;
    save_ok = save_ok_lem entity c d;
    save_err = save_err_lem entity c d;
    rand_keeps = λ n w. ap (λ e name. e (name_key c name)) (quiet.rand_keeps n w);
    time_keeps = λ w. ap (λ e name. e (name_key c name)) (quiet.time_keeps w);
  }

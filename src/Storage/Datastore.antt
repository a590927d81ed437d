-- ===== src/Storage/Datastore.antt =====
-- storage/datastore.go and storage/iface: Host records behind a Datastore client.
pub mod Laws
use epoxy.Base.{Str, ascii, List, Error}
use epoxy.Base.Exec.{Exec, pure, ◌>>=◌}
use epoxy.Storage.Host.{Host}

-- datastore.Key, for keys with a name and no parent
pub record Key : Type 0 where
  pub kind : Str
  pub name : Str
  pub namespace : Str

-- datastore.Query, for the queries of the source
pub record Query : Type 0 where
  pub kind : Str
  pub namespace : Str

-- iface.DatastoreClient, for Host entities
pub record DatastoreClient (W : Type 0) : Type 0 where
  pub get : Key → Exec W Error Host
  pub put : Key → Host → Exec W Error Key
  pub get_all : Query → Exec W Error (List Host)

pub record DatastoreConfig (W : Type 0) : Type 0 where
  pub client : DatastoreClient W
  pub kind : Str
  pub namespace : Str

abbrev pub entity_kind : Str
entity_kind = ascii "Host"

abbrev pub epoxy_namespace : Str
epoxy_namespace = ascii "ePoxy"

module _ {W : Type 0} where
  unfoldable pub new_datastore_config : DatastoreClient W → DatastoreConfig W
  new_datastore_config client = record {
    client = client;
    kind = entity_kind;
    namespace = epoxy_namespace;
  }

  unfoldable pub name_key : DatastoreConfig W → Str → Key
  name_key c name = record { kind = c.kind; name = name; namespace = c.namespace }

  unfoldable pub load : DatastoreConfig W → Str → Exec W Error Host
  unfolding name_key
  load c name = c.client.get (name_key c name)

  unfoldable pub save : DatastoreConfig W → Host → Exec W Error (Unit {0})
  unfolding name_key
  save c host = do key ← c.client.put (name_key c host.name) host; pure tt

  unfoldable pub list : DatastoreConfig W → Exec W Error (List Host)
  list c = c.client.get_all (record { kind = c.kind; namespace = c.namespace })

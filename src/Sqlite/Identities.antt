-- ===== src/Sqlite/Identities.antt =====
-- internal/store/sqlite/store.go: the store of external identities.
use identra.Common.{String, none, List, map}
use identra.Common.Exec.{Exec, pure, run, ◌>>=◌, ◌>>◌}
use identra.Security.Tokens.{Runtime}
use identra.Service.{Fault, ExternalIdentityModel, ExternalIdentityStore}
use identra.Sqlite.{IdentityRow, Driver, wrapped, unwrapped, id_or_new}
use identra.Sqlite.Queries.{
  create_external_identity, get_external_identity_by_provider_id,
  list_external_identities_by_user_id,
}
use identra.Sqlite.Users.{time_or}

unfoldable pub external_identity_to_domain : IdentityRow → ExternalIdentityModel
external_identity_to_domain identity = record {
  id = identity.id;
  user_id = identity.user_id;
  provider = identity.provider;
  provider_user_id = identity.provider_user_id;
  created_at = identity.created_at;
  updated_at = identity.updated_at;
}

module _ {W : Type 0} (driver : Driver W) (runtime : Runtime W) where
  unfoldable pub create : ExternalIdentityModel → Exec W Fault (Unit {0})
  unfolding id_or_new
  create identity = do
    now ← run runtime.now
    id ← run (id_or_new runtime identity.id)
    wrapped driver (
        create_external_identity driver (record {
          id = id;
          user_id = identity.user_id;
          provider = identity.provider;
          provider_user_id = identity.provider_user_id;
          created_at = time_or identity.created_at now;
          updated_at = now;
          deleted_at = none;
        }))
    pure tt

  unfoldable pub get_by_provider_id : String → String → Exec W Fault ExternalIdentityModel
  get_by_provider_id provider provider_user_id = do
    identity ← wrapped driver (get_external_identity_by_provider_id provider provider_user_id)
    pure (external_identity_to_domain identity)

  unfoldable pub get_by_user_id : String → Exec W Fault (List ExternalIdentityModel)
  get_by_user_id user_id = do
    identities ← unwrapped driver (list_external_identities_by_user_id driver user_id)
    pure (map external_identity_to_domain identities)

  -- NewStores
  unfoldable pub external_identity_store : ExternalIdentityStore W
  external_identity_store = record {
    create = create;
    get_by_provider_id = get_by_provider_id;
    get_by_user_id = get_by_user_id;
  }

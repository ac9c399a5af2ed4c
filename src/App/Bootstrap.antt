-- ===== src/App/Bootstrap.antt =====
-- internal/app/identra.go: the service account of the configuration.
use Prim.Native.String
use identra.Common.{String, true, false, not, if◌then◌else◌}
use identra.Common.Exec.{Exec, pure, raise, ◌>>=◌}
use identra.Text.{trim_space, equal_fold}
use identra.Security.Tokens.{Runtime}
use identra.ServiceAccount
use identra.ServiceAccount.{AccountError, other, BootstrapResult, Secrets}
use identra.Config.{BootstrapConfig}

module _ {W : Type 0} (runtime : Runtime W) (secrets : Secrets W) (quote : String → String) where
  -- bootstrapServiceAccount; the errors of `Bootstrap` keep their kind here.
  unfoldable pub bootstrap_service_account :
      BootstrapConfig → ServiceAccount.Store W → Exec W AccountError (Unit {0})
  bootstrap_service_account cfg store = if not cfg.enabled then pure tt else do
    result ← ServiceAccount.bootstrap runtime secrets store (record {
      name = cfg.name;
      scopes = cfg.scopes;
      client_id = cfg.client_id;
      client_secret = cfg.client_secret;
      if_not_exists = true;
      force = false;
    })
    (if not (equal_fold result.account.id (trim_space cfg.client_id))
        then raise (
            other (
              String.◌++◌ "bootstrap service account "
                (String.◌++◌ (quote cfg.name) " already exists with a different client ID")))
        else pure tt)

-- ===== src/Client/New.antt =====
-- client.go, New and the accessors of a client; config.go, Config. RetryConfig.WithDefaults is of
-- go-adcore. The sub-clients all hold the one core, which stands for them.
use go_adpwsh.Prelude.{
  String, Bool, true, false, ◌&&◌, Option, none, some, if◌then◌else◌, str_eq, ◌>>=◌,
}
use go_adpwsh.Prelude.Json.{Value, lookup_member}
use go_adpwsh.Core.Errors.{transport, constraint, error_of, Result, ok, err, panic, message}
use go_adpwsh.Core.Decode.{as_str, as_members}
use go_adpwsh.Core.Mask.{end}
use go_adpwsh.Core.Exec.{
  Platform, Core, Credential, RetryConfig, Dialect, dialect_adws, dialect_psopenad, M, exec,
}
use go_adpwsh.Client.Replication.{ReplicationConfig, with_defaults}

-- Config; its logger is that of every session.
pub record Config : Type 0 where
  pub transport : Option Platform
  pub server : String
  pub credential : Option Credential
  pub retry : RetryConfig
  pub replication : ReplicationConfig
  pub dialect : Dialect

pub record RootDse : Type 0 where
  pub dns_host_name : String
  pub default_naming_context : String
  pub schema_naming_context : String

abbrev pub decode_root_dse : Value → Option RootDse
decode_root_dse v = do
  m ← as_members v
  dns_host_name ← as_str (lookup_member "dnsHostName" m)
  default_naming_context ← as_str (lookup_member "defaultNamingContext" m)
  schema_naming_context ← as_str (lookup_member "schemaNamingContext" m)
  some (record {
    dns_host_name = dns_host_name;
    default_naming_context = default_naming_context;
    schema_naming_context = schema_naming_context;
  })

-- What a client keeps of its configuration.
pub record Client : Type 0 where
  pub core : Core
  pub replication : ReplicationConfig

abbrev pub is_psopenad : Dialect → Bool
is_psopenad dialect_psopenad = true
is_psopenad dialect_adws = false

module _ (retry_defaults : RetryConfig → RetryConfig) where
  -- The core of New, before the domain controller is known.
  unfoldable pub first_core : Config → Core
  first_core cfg = record {
    server = cfg.server;
    dnc = "";
    credential = cfg.credential;
    retry = retry_defaults cfg.retry;
    dialect = cfg.dialect;
  }

  abbrev client_of : Config → Core → Client
  client_of cfg core = record { core = core; replication = with_defaults cfg.replication }

  -- What New makes of the reply: it pins the domain controller.
  unfoldable pub pin : Config → Result RootDse → Result Client
  unfolding first_core with_defaults
  pin cfg (err e) = err e
  pin cfg panic = panic
  pin cfg (ok root) =
      if str_eq cfg.server ""
      then if str_eq root.dns_host_name ""
        then err (
            error_of transport "New"
              (message "adpwsh: rootDSE returned no dnsHostName; cannot pin a domain controller"))
        else ok (
            client_of cfg (record (first_core cfg) {
              server = root.dns_host_name;
              dnc = root.default_naming_context;
            }))
      else ok (client_of cfg (record (first_core cfg) { dnc = root.default_naming_context }))

  -- New
  unfoldable pub new : Config → M Client
  unfolding first_core exec pin
  new cfg s = elim cfg.transport [
    | none ↦ (err (error_of transport "New" (message "adpwsh: Config.Transport is required")), s)
    | some p ↦
        let out = exec p (first_core cfg) decode_root_dse "rootdse" end s in
        if is_psopenad cfg.dialect && cfg.replication.force_sync
        then (
          err (
              error_of constraint "New"
                (message "Replication.ForceSync is not supported with DialectPSOpenAD")),
          s,
        )
        else (pin cfg out.0, out.1)
  ]

-- Server
unfoldable pub server : Client → String
server c = c.core.server

-- DefaultNamingContext
unfoldable pub default_naming_context : Client → String
default_naming_context c = c.core.dnc

-- ===== src/Client/Computer.antt =====
-- computer.go: computer accounts.
pub mod Plans
use go_adpwsh.Prelude.{ℕ, String, Bool, true, false, Option, none, some, List, ◌>>=◌}
use go_adpwsh.Prelude.Json.{ℤ, Value, lookup_member}
use go_adpwsh.Core.Errors.{Error}
use go_adpwsh.Core.Decode.{as_str, as_bool, as_int, as_list, as_members}
use go_adpwsh.Core.Exec.{Platform, Core, Session, M}
use go_adpwsh.Client.Acl.{as_text}
use go_adpwsh.Client.Replication.{ReplicationConfig}
use go_adpwsh.Client.Objects.Shape.{Identity, Checked, valid, invalid, Query, Adcore}
use go_adpwsh.Client.Objects.Access.{Resource, read, find}
use go_adpwsh.Client.Objects.Access
use go_adpwsh.Client.Objects.Writing.{Reply, failed, create_object, update_object}
use go_adpwsh.Client.Group.{deleted_principal_filter}
use go_adpwsh.Client.User.{parse_expiration}
use go_adpwsh.Client.Computer.Plans.{
  computer_project, Computer, ComputerSpec, create_payload, plan_update, sam_without_dollar,
}

-- computerJSON
pub record ComputerJson : Type 0 where
  pub guid : String
  pub dn : String
  pub name : String
  pub sam_account_name : String
  pub sid : String
  pub enabled : Bool
  pub dns_host_name : String
  pub description : String
  pub display_name : String
  pub location : String
  pub managed_by : String
  pub trusted_for_delegation : Bool
  pub service_principal_names : List String
  pub allowed_to_delegate_to : List String
  pub principals_allowed : List String
  pub kerberos_encryption_type : List String
  pub account_expiration_date : String
  pub operating_system : String
  pub operating_system_version : String
  pub operating_system_service_pack : String

unfoldable pub decode_computer : Value → Option ComputerJson
decode_computer v = do
  m ← as_members v
  guid ← as_str (lookup_member "ObjectGUID" m)
  dn ← as_str (lookup_member "DistinguishedName" m)
  name ← as_str (lookup_member "Name" m)
  sam_account_name ← as_str (lookup_member "SamAccountName" m)
  sid ← as_str (lookup_member "SID" m)
  enabled ← as_bool (lookup_member "Enabled" m)
  dns_host_name ← as_str (lookup_member "DNSHostName" m)
  description ← as_str (lookup_member "Description" m)
  display_name ← as_str (lookup_member "DisplayName" m)
  location ← as_str (lookup_member "Location" m)
  managed_by ← as_str (lookup_member "ManagedBy" m)
  trusted_for_delegation ← as_bool (lookup_member "TrustedForDelegation" m)
  service_principal_names ← as_list as_text (lookup_member "ServicePrincipalNames" m)
  allowed_to_delegate_to ← as_list as_text (lookup_member "AllowedToDelegateTo" m)
  principals_allowed ← as_list as_text (lookup_member "PrincipalsAllowed" m)
  kerberos_encryption_type ← as_list as_text (lookup_member "KerberosEncryptionType" m)
  account_expiration_date ← as_str (lookup_member "AccountExpirationDate" m)
  operating_system ← as_str (lookup_member "OperatingSystem" m)
  operating_system_version ← as_str (lookup_member "OperatingSystemVersion" m)
  operating_system_service_pack ← as_str (lookup_member "OperatingSystemServicePack" m)
  some (record {
    guid = guid;
    dn = dn;
    name = name;
    sam_account_name = sam_account_name;
    sid = sid;
    enabled = enabled;
    dns_host_name = dns_host_name;
    description = description;
    display_name = display_name;
    location = location;
    managed_by = managed_by;
    trusted_for_delegation = trusted_for_delegation;
    service_principal_names = service_principal_names;
    allowed_to_delegate_to = allowed_to_delegate_to;
    principals_allowed = principals_allowed;
    kerberos_encryption_type = kerberos_encryption_type;
    account_expiration_date = account_expiration_date;
    operating_system = operating_system;
    operating_system_version = operating_system_version;
    operating_system_service_pack = operating_system_service_pack;
  })

-- computerJSON.model
unfoldable pub computer_model : Adcore → ComputerJson → Checked Computer
unfolding parse_expiration sam_without_dollar
computer_model a j = elim (a.container_of j.dn) [
  | invalid m ↦ invalid m
  | valid container ↦ elim (parse_expiration a j.account_expiration_date) [
    | invalid m ↦ invalid m
    | valid expiration ↦ valid (record {
      guid = j.guid;
      dn = j.dn;
      name = j.name;
      sam_account_name = sam_without_dollar j.sam_account_name;
      container = container;
      sid = j.sid;
      enabled = j.enabled;
      dns_host_name = j.dns_host_name;
      description = j.description;
      display_name = j.display_name;
      location = j.location;
      managed_by = j.managed_by;
      trusted_for_delegation = j.trusted_for_delegation;
      service_principal_names = j.service_principal_names;
      allowed_to_delegate_to = j.allowed_to_delegate_to;
      principals_allowed = j.principals_allowed;
      kerberos_encryption_type = j.kerberos_encryption_type;
      operating_system = j.operating_system;
      operating_system_version = j.operating_system_version;
      operating_system_service_pack = j.operating_system_service_pack;
      account_expiration = expiration;
    })
  ]
]

abbrev pub computer_resource : Adcore → Resource ComputerJson Computer
computer_resource a = record {
  noun = "Computer";
  op_create = "computer_create";
  op_read = "computer_read";
  op_search = "computer_search";
  op_update = "computer_update";
  op_delete = "computer_delete";
  project = computer_project;
  decode = decode_computer;
  model = computer_model a;
  guid = λ o. o.guid;
  dn = λ o. o.dn;
}

module _ (p : Platform) (a : Adcore) where
  -- Get
  unfoldable pub get : Core → Identity → M Computer
  unfolding read
  get = read p a (computer_resource a)

  -- Search
  unfoldable pub search : Core → Query → M (List Computer)
  unfolding find
  search = find p a (computer_resource a)

  -- Delete
  unfoldable pub delete : Core → Identity → M (Unit {0})
  unfolding Access.delete
  delete = Access.delete p a (computer_resource a)

  -- `validate` is ComputerSpec.Validate of go-adcore; its flag says that the object is new.
  module _ (validate : ComputerSpec → String → Bool → Option Error) (now : Session → ℕ) (fuel : ℕ)
      (c : Core) (cfg : ReplicationConfig) where
    -- Create
    unfoldable pub create : ComputerSpec → Session → Reply Computer × Session
    unfolding create_payload create_object deleted_principal_filter
    create spec s = elim (validate spec "Computer.Create" true) [
      | some e ↦ (failed e, s)
      | none ↦
          create_object p a (computer_resource a) now fuel c cfg
            (deleted_principal_filter a spec.sam_account_name) (create_payload a spec) s
    ]

    -- Update
    unfoldable pub update : Identity → ComputerSpec → Session → Reply Computer × Session
    unfolding plan_update update_object
    update id spec s = elim (validate spec "Computer.Update" false) [
      | some e ↦ (failed e, s)
      | none ↦ update_object p a (computer_resource a) now fuel c cfg id (plan_update a id spec) s
    ]

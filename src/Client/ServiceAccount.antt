-- ===== src/Client/ServiceAccount.antt =====
-- serviceaccount.go: group Managed Service Accounts.
pub mod Plans
use go_adpwsh.Prelude.{ℕ, String, Bool, true, false, Option, none, some, List, ◌>>=◌}
use go_adpwsh.Prelude.Json.{ℤ, Value, lookup_member}
use go_adpwsh.Core.Errors.{Error}
use go_adpwsh.Core.Decode.{as_str, as_bool, as_int, as_list, as_members}
use go_adpwsh.Core.Exec.{Platform, Core, Session, M}
use go_adpwsh.Client.Acl.{as_text}
use go_adpwsh.Client.Replication.{ReplicationConfig}
use go_adpwsh.Client.Objects.Shape.{Identity, Checked, valid, invalid, Query, Adcore}
use go_adpwsh.Client.Objects.Access.{Resource, read, find}
use go_adpwsh.Client.Objects.Access
use go_adpwsh.Client.Objects.Writing.{Reply, failed, create_object, update_object}
use go_adpwsh.Client.Group.{deleted_principal_filter}
use go_adpwsh.Client.User.{parse_expiration}
use go_adpwsh.Client.Computer.Plans.{sam_without_dollar}
use go_adpwsh.Client.ServiceAccount.Plans.{
  gmsa_project, Gmsa, GmsaSpec, create_payload, plan_update,
}

-- gmsaJSON, where the empty text stands for an expiration date that is nil.
pub record GmsaJson : Type 0 where
  pub guid : String
  pub dn : String
  pub name : String
  pub sam_account_name : String
  pub sid : String
  pub dns_host_name : String
  pub description : String
  pub display_name : String
  pub enabled : Bool
  pub trusted_for_delegation : Bool
  pub principals_allowed : List String
  pub service_principal_names : List String
  pub kerberos_encryption_type : List String
  pub managed_password_interval_in_days : ℤ
  pub account_expiration_date : String

unfoldable pub decode_gmsa : Value → Option GmsaJson
decode_gmsa v = do
  m ← as_members v
  guid ← as_str (lookup_member "objectGUID" m)
  dn ← as_str (lookup_member "distinguishedName" m)
  name ← as_str (lookup_member "name" m)
  sam_account_name ← as_str (lookup_member "samAccountName" m)
  sid ← as_str (lookup_member "sid" m)
  dns_host_name ← as_str (lookup_member "dnsHostName" m)
  description ← as_str (lookup_member "description" m)
  display_name ← as_str (lookup_member "displayName" m)
  enabled ← as_bool (lookup_member "enabled" m)
  trusted_for_delegation ← as_bool (lookup_member "trustedForDelegation" m)
  principals_allowed ← as_list as_text (lookup_member "principalsAllowed" m)
  service_principal_names ← as_list as_text (lookup_member "servicePrincipalNames" m)
  kerberos_encryption_type ← as_list as_text (lookup_member "kerberosEncryptionType" m)
  managed_password_interval_in_days ← as_int (lookup_member "managedPasswordIntervalInDays" m)
  account_expiration_date ← as_str (lookup_member "accountExpirationDate" m)
  some (record {
    guid = guid;
    dn = dn;
    name = name;
    sam_account_name = sam_account_name;
    sid = sid;
    dns_host_name = dns_host_name;
    description = description;
    display_name = display_name;
    enabled = enabled;
    trusted_for_delegation = trusted_for_delegation;
    principals_allowed = principals_allowed;
    service_principal_names = service_principal_names;
    kerberos_encryption_type = kerberos_encryption_type;
    managed_password_interval_in_days = managed_password_interval_in_days;
    account_expiration_date = account_expiration_date;
  })

-- gmsaJSON.model
unfoldable pub gmsa_model : Adcore → GmsaJson → Checked Gmsa
unfolding parse_expiration sam_without_dollar
gmsa_model a j = elim (a.container_of j.dn) [
  | invalid m ↦ invalid m
  | valid container ↦ elim (parse_expiration a j.account_expiration_date) [
    | invalid m ↦ invalid m
    | valid expiration ↦ valid (record {
      guid = j.guid;
      dn = j.dn;
      name = j.name;
      sam_account_name = sam_without_dollar j.sam_account_name;
      container = container;
      sid = j.sid;
      dns_host_name = j.dns_host_name;
      description = j.description;
      display_name = j.display_name;
      enabled = j.enabled;
      trusted_for_delegation = j.trusted_for_delegation;
      principals_allowed = j.principals_allowed;
      service_principal_names = j.service_principal_names;
      kerberos_encryption_type = j.kerberos_encryption_type;
      managed_password_interval_in_days = j.managed_password_interval_in_days;
      account_expiration = expiration;
    })
  ]
]

abbrev pub gmsa_resource : Adcore → Resource GmsaJson Gmsa
gmsa_resource a = record {
  noun = "ServiceAccount";
  op_create = "gmsa_create";
  op_read = "gmsa_read";
  op_search = "gmsa_search";
  op_update = "gmsa_update";
  op_delete = "gmsa_delete";
  project = gmsa_project;
  decode = decode_gmsa;
  model = gmsa_model a;
  guid = λ o. o.guid;
  dn = λ o. o.dn;
}

module _ (p : Platform) (a : Adcore) where
  -- Get
  unfoldable pub get : Core → Identity → M Gmsa
  unfolding read
  get = read p a (gmsa_resource a)

  -- Search
  unfoldable pub search : Core → Query → M (List Gmsa)
  unfolding find
  search = find p a (gmsa_resource a)

  -- Delete
  unfoldable pub delete : Core → Identity → M (Unit {0})
  unfolding Access.delete
  delete = Access.delete p a (gmsa_resource a)

  -- `validate` is GMSASpec.Validate of go-adcore; its flag says that the object is new.
  module _ (validate : GmsaSpec → String → Bool → Option Error) (now : Session → ℕ) (fuel : ℕ)
      (c : Core) (cfg : ReplicationConfig) where
    -- Create
    unfoldable pub create : GmsaSpec → Session → Reply Gmsa × Session
    unfolding create_payload create_object deleted_principal_filter
    create spec s = elim (validate spec "ServiceAccount.Create" true) [
      | some e ↦ (failed e, s)
      | none ↦
          create_object p a (gmsa_resource a) now fuel c cfg
            (deleted_principal_filter a spec.sam_account_name) (create_payload a spec) s
    ]

    -- Update
    unfoldable pub update : Identity → GmsaSpec → Session → Reply Gmsa × Session
    unfolding plan_update update_object
    update id spec s = elim (validate spec "ServiceAccount.Update" false) [
      | some e ↦ (failed e, s)
      | none ↦ update_object p a (gmsa_resource a) now fuel c cfg id (plan_update a id spec) s
    ]

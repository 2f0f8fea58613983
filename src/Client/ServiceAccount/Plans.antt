-- ===== src/Client/ServiceAccount/Plans.antt =====
-- serviceaccount.go, the payloads of Create and Update. Slices are as in Computer/Plans.
use go_adpwsh.Prelude.{String, Bool, Option, List, [], ◌∷◌}
use go_adpwsh.Prelude.Json.{ℤ, num}
use go_adpwsh.Core.Mask.{Payload, dict, leaf, Entries, end, entry}
use go_adpwsh.Client.Objects.Shape.{
  Identity, Instant, Adcore, Draft, apply_string_field, identity_args, text, flag, text_list,
  put_text, put_some, put_changed,
}
use go_adpwsh.Client.Objects.Writing.{Plan}
use go_adpwsh.Client.Objects.Changes.{blank, plan_change}
use go_adpwsh.Client.Group.Plans.{put_sam}
use go_adpwsh.Client.User.Plans.{Expiration, put_expiration, set_expiration}
use go_adpwsh.Client.Computer.Plans.{sam_without_dollar, principals, replacement}

abbrev pub gmsa_project : List String
gmsa_project =
    "DNSHostName" ∷ "Description" ∷ "DisplayName" ∷ "Enabled" ∷ "TrustedForDelegation"
    ∷ "PrincipalsAllowedToRetrieveManagedPassword" ∷ "ServicePrincipalNames"
    ∷ "KerberosEncryptionType" ∷ "ManagedPasswordIntervalInDays" ∷ "AccountExpirationDate" ∷ []

pub record Gmsa : Type 0 where
  pub guid : String
  pub dn : String
  pub name : String
  pub sam_account_name : String
  pub container : String
  pub sid : String
  pub dns_host_name : String
  pub description : String
  pub display_name : String
  pub enabled : Bool
  pub trusted_for_delegation : Bool
  pub principals_allowed : List String
  pub service_principal_names : List String
  pub kerberos_encryption_type : List String
  pub managed_password_interval_in_days : ℤ
  pub account_expiration : Option Instant

pub record GmsaSpec : Type 0 where
  pub name : String
  pub sam_account_name : String
  pub container : String
  pub dns_host_name : Option String
  pub description : Option String
  pub display_name : Option String
  pub enabled : Option Bool
  pub trusted_for_delegation : Option Bool
  pub service_principal_names : Option (List String)
  pub principals_allowed : Option (List Identity)
  pub kerberos_encryption_type : Option (List String)
  pub account_expiration : Expiration
  pub managed_password_interval_in_days : Option ℤ

abbrev number : ℤ → Payload
number n = leaf (num n)

-- The payload of Create.
unfoldable pub create_payload : Adcore → GmsaSpec → Entries
unfolding put_text put_some identity_args put_expiration
create_payload a spec =
    let named = entry "Name" (text spec.name) (
      entry "SamAccountName" (text spec.sam_account_name)
        (entry "Path" (text spec.container) end)) in
    let described =
      put_text "Description" spec.description (put_text "DNSHostName" spec.dns_host_name named) in
    let shown = put_text "DisplayName" spec.display_name described in
    let enabled = put_some "Enabled" flag spec.enabled shown in
    let trusted = put_some "TrustedForDelegation" flag spec.trusted_for_delegation enabled in
    let spns = put_some "ServicePrincipalNames" text_list spec.service_principal_names trusted in
    let allowed =
      put_some "PrincipalsAllowedToRetrieveManagedPassword" principals spec.principals_allowed
        spns in
    let kerberos =
      put_some "KerberosEncryptionType" text_list spec.kerberos_encryption_type allowed in
    let expiring = put_expiration a spec.account_expiration kerberos in
    entry "create"
      (dict (
        put_some "ManagedPasswordIntervalInDays" number spec.managed_password_interval_in_days
          expiring))
      (entry "project" (text_list gmsa_project) end)

-- The texts of Set-ADServiceAccount, and those that are cleared.
unfoldable pub draft_texts : Identity → GmsaSpec → Draft
unfolding apply_string_field
draft_texts id spec =
    let host = apply_string_field "DNSHostName" "dNSHostName" spec.dns_host_name (blank id) in
    let described = apply_string_field "Description" "description" spec.description host in
    apply_string_field "DisplayName" "displayName" spec.display_name described

-- The other parameters of Set-ADServiceAccount.
unfoldable pub set_values : Adcore → GmsaSpec → Gmsa → Entries → Entries
unfolding put_sam sam_without_dollar put_changed put_some identity_args set_expiration
set_values a spec current strings =
    let named =
      put_sam spec.sam_account_name (sam_without_dollar current.sam_account_name) strings in
    let enabled = put_changed "Enabled" flag spec.enabled current.enabled named in
    let trusted =
      put_changed "TrustedForDelegation" flag spec.trusted_for_delegation
        current.trusted_for_delegation enabled in
    let allowed =
      put_some "PrincipalsAllowedToRetrieveManagedPassword" principals spec.principals_allowed
        trusted in
    let spns = put_some "ServicePrincipalNames" replacement spec.service_principal_names allowed in
    let kerberos = put_some "KerberosEncryptionType" text_list spec.kerberos_encryption_type spns in
    set_expiration a spec.account_expiration kerberos

unfoldable pub draft : Adcore → Identity → GmsaSpec → Gmsa → Draft
unfolding draft_texts set_values
draft a id spec current =
    let strings = draft_texts id spec in
    record strings { splat = set_values a spec current strings.splat }

-- What Update makes of the account that it read.
unfoldable pub plan_update : Adcore → Identity → GmsaSpec → Gmsa → Plan
unfolding draft plan_change
plan_update a id spec current =
    plan_change a "ServiceAccount.Update" id gmsa_project (draft a id spec current)
      (record { name = spec.name; container = spec.container })
      (record { name = current.name; container = current.container })

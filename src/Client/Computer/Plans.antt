-- ===== src/Client/Computer/Plans.antt =====
-- computer.go, the payloads of Create and Update. A nil slice of texts and an empty one, which
-- nilIfEmpty makes one, are the empty list; a slice that a spec may leave nil is optional.
use go_adpwsh.Prelude.{◌==◌, String, Bool, Option, none, some, List, [], ◌∷◌, if◌then◌else◌, str_eq}
use Prim.Native.Char.{code}
use go_adpwsh.Core.Mask.{Payload, dict, Entries, end, entry, put}
use go_adpwsh.Script.Attrs.{clear_name, replace_value}
use go_adpwsh.Client.Objects.Shape.{
  Identity, Instant, Adcore, Draft, apply_string_field, identity_args, text, flag, text_list,
  put_text, put_some, put_changed,
}
use go_adpwsh.Client.Objects.Writing.{Plan}
use go_adpwsh.Client.Objects.Changes.{blank, plan_change}
use go_adpwsh.Client.Group.Plans.{put_sam}
use go_adpwsh.Client.User.Plans.{Expiration, put_expiration, set_expiration}

abbrev pub computer_project : List String
computer_project =
    "ObjectGUID" ∷ "DistinguishedName" ∷ "Name" ∷ "SamAccountName" ∷ "SID" ∷ "Enabled"
    ∷ "DNSHostName" ∷ "Description" ∷ "DisplayName" ∷ "Location" ∷ "ManagedBy"
    ∷ "TrustedForDelegation" ∷ "ServicePrincipalNames" ∷ "msDS-AllowedToDelegateTo"
    ∷ "PrincipalsAllowedToDelegateToAccount" ∷ "KerberosEncryptionType" ∷ "AccountExpirationDate"
    ∷ "OperatingSystem" ∷ "OperatingSystemVersion" ∷ "OperatingSystemServicePack" ∷ []

pub record Computer : Type 0 where
  pub guid : String
  pub dn : String
  pub name : String
  pub sam_account_name : String
  pub container : String
  pub sid : String
  pub enabled : Bool
  pub dns_host_name : String
  pub description : String
  pub display_name : String
  pub location : String
  pub managed_by : String
  pub trusted_for_delegation : Bool
  pub service_principal_names : List String
  pub allowed_to_delegate_to : List String
  pub principals_allowed : List String
  pub kerberos_encryption_type : List String
  pub operating_system : String
  pub operating_system_version : String
  pub operating_system_service_pack : String
  pub account_expiration : Option Instant

pub record ComputerSpec : Type 0 where
  pub name : String
  pub sam_account_name : String
  pub container : String
  pub dns_host_name : Option String
  pub description : Option String
  pub display_name : Option String
  pub location : Option String
  pub managed_by : Option String
  pub enabled : Option Bool
  pub trusted_for_delegation : Option Bool
  pub service_principal_names : Option (List String)
  pub allowed_to_delegate_to : Option (List String)
  pub principals_allowed : Option (List Identity)
  pub kerberos_encryption_type : Option (List String)
  pub account_expiration : Expiration

-- samWithoutDollar: strings.TrimSuffix(s, "$")
unfoldable pub sam_without_dollar : String → String
sam_without_dollar String.[] = ""
sam_without_dollar (String.◌∷◌ c s) =
    let rest = sam_without_dollar s in
    if str_eq s "" then (if code c == b'$' then "" else String.◌∷◌ c "") else String.◌∷◌ c rest

-- The identities of the principals, as a payload.
abbrev pub principals : List Identity → Payload
principals ids = text_list (identity_args ids)

-- map[string]any{"Replace": …}, the form that the cmdlets take for ServicePrincipalNames
abbrev pub replacement : List String → Payload
replacement names = dict (entry "Replace" (text_list names) end)

-- The delegation in the splat of Create, where a list that is empty is left out.
unfoldable pub put_delegation : Option (List String) → Entries → Entries
unfolding put
put_delegation none create = create
put_delegation (some []) create = create
put_delegation (some (t ∷ ts)) create =
    put "OtherAttributes" (dict (entry "msDS-AllowedToDelegateTo" (text_list (t ∷ ts)) end)) create

-- The delegation in Update: cleared if the list is empty, and replaced otherwise.
unfoldable pub draft_delegation : Option (List String) → Draft → Draft
unfolding clear_name replace_value
draft_delegation none d = d
draft_delegation (some []) d = record d { ops = clear_name "msDS-AllowedToDelegateTo" d.ops }
draft_delegation (some (t ∷ ts)) d = record d {
  ops = replace_value "msDS-AllowedToDelegateTo" (text_list (t ∷ ts)) d.ops;
}

-- The texts of the splat of Create.
unfoldable pub create_texts : ComputerSpec → Entries → Entries
unfolding put_text
create_texts spec named =
    let host = put_text "DNSHostName" spec.dns_host_name named in
    let described = put_text "Description" spec.description host in
    let shown = put_text "DisplayName" spec.display_name described in
    put_text "ManagedBy" spec.managed_by (put_text "Location" spec.location shown)

-- The payload of Create.
unfoldable pub create_payload : Adcore → ComputerSpec → Entries
unfolding create_texts put_some put_delegation identity_args put_expiration
create_payload a spec =
    let named = create_texts spec (
      entry "Name" (text spec.name) (
        entry "SamAccountName" (text spec.sam_account_name)
          (entry "Path" (text spec.container) end))) in
    let enabled = put_some "Enabled" flag spec.enabled named in
    let trusted = put_some "TrustedForDelegation" flag spec.trusted_for_delegation enabled in
    let spns = put_some "ServicePrincipalNames" text_list spec.service_principal_names trusted in
    let delegated = put_delegation spec.allowed_to_delegate_to spns in
    let allowed =
      put_some "PrincipalsAllowedToDelegateToAccount" principals spec.principals_allowed
        delegated in
    let kerberos =
      put_some "KerberosEncryptionType" text_list spec.kerberos_encryption_type allowed in
    entry "create" (dict (put_expiration a spec.account_expiration kerberos))
      (entry "project" (text_list computer_project) end)

-- The texts of Set-ADComputer, and those that are cleared.
unfoldable pub draft_texts : Identity → ComputerSpec → Draft
unfolding apply_string_field
draft_texts id spec =
    let host = apply_string_field "DNSHostName" "dNSHostName" spec.dns_host_name (blank id) in
    let described = apply_string_field "Description" "description" spec.description host in
    let shown = apply_string_field "DisplayName" "displayName" spec.display_name described in
    apply_string_field "ManagedBy" "managedBy" spec.managed_by
      (apply_string_field "Location" "location" spec.location shown)

-- The other parameters of Set-ADComputer.
unfoldable pub set_values : Adcore → ComputerSpec → Computer → Entries → Entries
unfolding put_sam sam_without_dollar put_changed put_some identity_args set_expiration
set_values a spec current strings =
    let named =
      put_sam spec.sam_account_name (sam_without_dollar current.sam_account_name) strings in
    let enabled = put_changed "Enabled" flag spec.enabled current.enabled named in
    let trusted =
      put_changed "TrustedForDelegation" flag spec.trusted_for_delegation
        current.trusted_for_delegation enabled in
    let spns = put_some "ServicePrincipalNames" replacement spec.service_principal_names trusted in
    let allowed =
      put_some "PrincipalsAllowedToDelegateToAccount" principals spec.principals_allowed spns in
    let kerberos =
      put_some "KerberosEncryptionType" text_list spec.kerberos_encryption_type allowed in
    set_expiration a spec.account_expiration kerberos

unfoldable pub draft : Adcore → Identity → ComputerSpec → Computer → Draft
unfolding draft_texts set_values draft_delegation
draft a id spec current =
    let strings = draft_texts id spec in
    draft_delegation spec.allowed_to_delegate_to
      (record strings { splat = set_values a spec current strings.splat })

-- What Update makes of the computer that it read.
unfoldable pub plan_update : Adcore → Identity → ComputerSpec → Computer → Plan
unfolding draft plan_change
plan_update a id spec current =
    plan_change a "Computer.Update" id computer_project (draft a id spec current)
      (record { name = spec.name; container = spec.container })
      (record { name = current.name; container = current.container })

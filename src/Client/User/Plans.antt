-- ===== src/Client/User/Plans.antt =====
-- user.go, the payloads of Create and Update, and userTier1 of spec.go.
use go_adpwsh.Prelude.{String, Bool, not, Option, none, some, List, [], ◌∷◌, if◌then◌else◌, str_eq}
use go_adpwsh.Prelude.Json.{null}
use go_adpwsh.Core.Mask.{dict, leaf, Entries, end, entry, put}
use go_adpwsh.Client.Objects.Shape.{
  Identity, Instant, Adcore, Draft, apply_string_field, text, flag, text_list, put_text, put_some,
  put_changed,
}
use go_adpwsh.Client.Objects.Writing.{Plan}
use go_adpwsh.Client.Objects.Changes.{blank, plan_change}
use go_adpwsh.Client.Group.Plans.{put_sam}

abbrev pub user_project : List String
user_project =
    "Description" ∷ "DisplayName" ∷ "GivenName" ∷ "Surname" ∷ "UserPrincipalName" ∷ "Enabled"
    ∷ "CannotChangePassword" ∷ "PasswordNeverExpires" ∷ "pwdLastSet" ∷ "AccountExpirationDate"
    ∷ "msDS-User-Account-Control-Computed" ∷ []

pub record User : Type 0 where
  pub guid : String
  pub dn : String
  pub name : String
  pub sam_account_name : String
  pub user_principal_name : String
  pub display_name : String
  pub given_name : String
  pub surname : String
  pub description : String
  pub container : String
  pub enabled : Bool
  pub sid : String
  pub change_password_at_logon : Bool
  pub can_change_password : Bool
  pub password_expires : Bool
  pub account_expiration : Option Instant

-- The three states of the account expiration of a spec: neither IsSet nor IsClear, IsClear, IsSet.
pub data Expiration : Type 0 where
  leave_expiration never_expires : Expiration
  expires_at : Instant → Expiration

-- adcore.UserSpec; the password is what RevealSecret gives, and "" is the zero Secret.
pub record UserSpec : Type 0 where
  pub sam_account_name : String
  pub name : Option String
  pub container : String
  pub user_principal_name : Option String
  pub display_name : Option String
  pub given_name : Option String
  pub surname : Option String
  pub description : Option String
  pub enabled : Option Bool
  pub change_password_at_logon : Option Bool
  pub can_change_password : Option Bool
  pub password_expires : Option Bool
  pub account_expiration : Expiration
  pub password : Option String

-- A row of userTier1.
pub record StringField : Type 0 where
  pub param : String
  pub ldap : String
  pub get : UserSpec → Option String

abbrev pub user_tier1 : List StringField
user_tier1 =
    record {
      param = "UserPrincipalName";
      ldap = "userPrincipalName";
      get = λ s. s.user_principal_name;
    }
    ∷ record { param = "DisplayName"; ldap = "displayName"; get = λ s. s.display_name }
    ∷ record { param = "GivenName"; ldap = "givenName"; get = λ s. s.given_name }
    ∷ record { param = "Surname"; ldap = "sn"; get = λ s. s.surname }
    ∷ record { param = "Description"; ldap = "description"; get = λ s. s.description }
    ∷ []

-- The loop of Create over the rows.
unfoldable pub put_fields : UserSpec → List StringField → Entries → Entries
unfolding put_text
put_fields spec [] create = create
put_fields spec (f ∷ fs) create = put_fields spec fs (put_text f.param (f.get spec) create)

-- The loop of Update over the rows.
unfoldable pub draft_fields : UserSpec → List StringField → Draft → Draft
unfolding apply_string_field
draft_fields spec [] d = d
draft_fields spec (f ∷ fs) d =
    draft_fields spec fs (apply_string_field f.param f.ldap (f.get spec) d)

-- The expiration in the splat of Create.
unfoldable pub put_expiration : Adcore → Expiration → Entries → Entries
unfolding put
put_expiration a (expires_at t) create = put "AccountExpirationDate" (text (a.format_time t)) create
put_expiration a never_expires create = create
put_expiration a leave_expiration create = create

-- The expiration in the splat of Update, where a nil says that the account never expires.
unfoldable pub set_expiration : Adcore → Expiration → Entries → Entries
unfolding put
set_expiration a (expires_at t) set = put "AccountExpirationDate" (text (a.format_time t)) set
set_expiration a never_expires set = put "AccountExpirationDate" (leaf null) set
set_expiration a leave_expiration set = set

-- *spec.Name if it is there and not empty, and else the other name.
unfoldable pub name_or : Option String → String → String
name_or none other = other
name_or (some n) other = if str_eq n "" then other else n

-- The payload of Create.
unfoldable pub create_payload : Adcore → UserSpec → Entries
unfolding put_fields put_some put_expiration name_or put
create_payload a spec =
    let named = entry "Name" (text (name_or spec.name spec.sam_account_name)) (
      entry "SamAccountName" (text spec.sam_account_name)
        (entry "Path" (text spec.container) end)) in
    let enabled = put_some "Enabled" flag spec.enabled (put_fields spec user_tier1 named) in
    let logon = put_some "ChangePasswordAtLogon" flag spec.change_password_at_logon enabled in
    let changes =
      put_some "CannotChangePassword" (λ b. flag (not b)) spec.can_change_password logon in
    let never = put_some "PasswordNeverExpires" (λ b. flag (not b)) spec.password_expires changes in
    put_text "password" spec.password (
      entry "create" (dict (put_expiration a spec.account_expiration never))
        (entry "project" (text_list user_project) end))

-- The parameters of Set-ADUser, and what is cleared.
unfoldable pub draft : Adcore → Identity → UserSpec → User → Draft
unfolding draft_fields put_sam put_changed set_expiration
draft a id spec current =
    let strings = draft_fields spec user_tier1 (blank id) in
    let named = put_sam spec.sam_account_name current.sam_account_name strings.splat in
    let enabled = put_changed "Enabled" flag spec.enabled current.enabled named in
    let logon =
      put_changed "ChangePasswordAtLogon" flag spec.change_password_at_logon
        current.change_password_at_logon enabled in
    let changes =
      put_changed "CannotChangePassword" (λ b. flag (not b)) spec.can_change_password
        current.can_change_password logon in
    let never =
      put_changed "PasswordNeverExpires" (λ b. flag (not b)) spec.password_expires
        current.password_expires changes in
    record strings { splat = set_expiration a spec.account_expiration never }

-- What Update makes of the user that it read.
unfoldable pub plan_update : Adcore → Identity → UserSpec → User → Plan
unfolding draft plan_change name_or
plan_update a id spec current =
    plan_change a "User.Update" id user_project (draft a id spec current)
      (record { name = name_or spec.name current.name; container = spec.container })
      (record { name = current.name; container = current.container })

-- ===== src/Client/User.antt =====
-- user.go: user accounts.
pub mod Plans
use go_adpwsh.Prelude.{ℕ, String, Bool, Option, none, some, List, if◌then◌else◌, str_eq, ◌>>=◌}
use go_adpwsh.Prelude.Json.{Value, lookup_member}
use go_adpwsh.Core.Errors.{password, Error, error_of, Result, ok, err, panic, message}
use go_adpwsh.Core.Decode.{as_str, as_bool, as_members}
use go_adpwsh.Core.Mask.{end, entry}
use go_adpwsh.Core.Exec.{Platform, Core, Session, M, exec}
use go_adpwsh.Client.Replication.{ReplicationConfig}
use go_adpwsh.Client.Objects.Shape.{Identity, Checked, valid, invalid, Instant, Query, Adcore, text}
use go_adpwsh.Client.Objects.Access.{Resource, read, find}
use go_adpwsh.Client.Objects.Access
use go_adpwsh.Client.Objects.Writing.{Reply, failed, create_object, update_object}
use go_adpwsh.Client.Group.{deleted_principal_filter}
use go_adpwsh.Client.User.Plans.{user_project, User, UserSpec, create_payload, plan_update}

-- userJSON, where the empty text stands for an expiration date that is nil.
pub record UserJson : Type 0 where
  pub guid : String
  pub dn : String
  pub name : String
  pub sam_account_name : String
  pub user_principal_name : String
  pub display_name : String
  pub given_name : String
  pub surname : String
  pub description : String
  pub enabled : Bool
  pub sid : String
  pub change_password_at_logon : Bool
  pub can_change_password : Bool
  pub password_expires : Bool
  pub account_expiration_date : String

unfoldable pub decode_user : Value → Option UserJson
decode_user v = do
  m ← as_members v
  guid ← as_str (lookup_member "objectGUID" m)
  dn ← as_str (lookup_member "distinguishedName" m)
  name ← as_str (lookup_member "name" m)
  sam_account_name ← as_str (lookup_member "samAccountName" m)
  user_principal_name ← as_str (lookup_member "userPrincipalName" m)
  display_name ← as_str (lookup_member "displayName" m)
  given_name ← as_str (lookup_member "givenName" m)
  surname ← as_str (lookup_member "surname" m)
  description ← as_str (lookup_member "description" m)
  enabled ← as_bool (lookup_member "enabled" m)
  sid ← as_str (lookup_member "sid" m)
  change_password_at_logon ← as_bool (lookup_member "changePasswordAtLogon" m)
  can_change_password ← as_bool (lookup_member "canChangePassword" m)
  password_expires ← as_bool (lookup_member "passwordExpires" m)
  account_expiration_date ← as_str (lookup_member "accountExpirationDate" m)
  some (record {
    guid = guid;
    dn = dn;
    name = name;
    sam_account_name = sam_account_name;
    user_principal_name = user_principal_name;
    display_name = display_name;
    given_name = given_name;
    surname = surname;
    description = description;
    enabled = enabled;
    sid = sid;
    change_password_at_logon = change_password_at_logon;
    can_change_password = can_change_password;
    password_expires = password_expires;
    account_expiration_date = account_expiration_date;
  })

-- The expiration date of a reply: nil, a time, or an error of time.Parse.
unfoldable pub parse_expiration : Adcore → String → Checked (Option Instant)
parse_expiration a date =
    if str_eq date ""
    then valid none
    else elim (a.parse_time date) [ valid t ↦ valid (some t) | invalid m ↦ invalid m ]

-- userJSON.model
unfoldable pub user_model : Adcore → UserJson → Checked User
unfolding parse_expiration
user_model a j = elim (a.container_of j.dn) [
  | invalid m ↦ invalid m
  | valid container ↦ elim (parse_expiration a j.account_expiration_date) [
    | invalid m ↦ invalid m
    | valid expiration ↦ valid (record {
      guid = j.guid;
      dn = j.dn;
      name = j.name;
      sam_account_name = j.sam_account_name;
      user_principal_name = j.user_principal_name;
      display_name = j.display_name;
      given_name = j.given_name;
      surname = j.surname;
      description = j.description;
      container = container;
      enabled = j.enabled;
      sid = j.sid;
      change_password_at_logon = j.change_password_at_logon;
      can_change_password = j.can_change_password;
      password_expires = j.password_expires;
      account_expiration = expiration;
    })
  ]
]

abbrev pub user_resource : Adcore → Resource UserJson User
user_resource a = record {
  noun = "User";
  op_create = "user_create";
  op_read = "user_read";
  op_search = "user_search";
  op_update = "user_update";
  op_delete = "user_delete";
  project = user_project;
  decode = decode_user;
  model = user_model a;
  guid = λ o. o.guid;
  dn = λ o. o.dn;
}

module _ (p : Platform) (a : Adcore) where
  -- Get
  unfoldable pub get : Core → Identity → M User
  unfolding read
  get = read p a (user_resource a)

  -- Search
  unfoldable pub search : Core → Query → M (List User)
  unfolding find
  search = find p a (user_resource a)

  -- Delete
  unfoldable pub delete : Core → Identity → M (Unit {0})
  unfolding Access.delete
  delete = Access.delete p a (user_resource a)

  abbrev pub decode_reset : Value → Option Bool
  decode_reset v = do m ← as_members v; as_bool (lookup_member "reset" m)

  -- What SetPassword makes of the reply, whose content it does not look at.
  unfoldable pub judge_reset : Identity → Result Bool → Result (Unit {0})
  judge_reset id (ok b) = ok tt
  judge_reset id (err e) = err (a.with_identity e "User.SetPassword" id.text)
  judge_reset id panic = panic

  -- SetPassword; "" is the zero Secret.
  unfoldable pub set_password : Core → Identity → String → M (Unit {0})
  unfolding exec judge_reset
  set_password c id pw s =
      let out =
        exec p c decode_reset "user_setpassword"
          (entry "identity" (text id.arg) (entry "password" (text pw) end)) s in
      if str_eq pw ""
      then (
        err
            (record (error_of password "User.SetPassword"
              (message "an empty password cannot be set")) { identity = id.text }),
        s,
      )
      else (judge_reset id out.0, out.1)

  -- `validate` is UserSpec.Validate of go-adcore.
  module _ (validate : UserSpec → String → Option Error) (now : Session → ℕ) (fuel : ℕ) (c : Core)
      (cfg : ReplicationConfig) where
    -- Create
    unfoldable pub create : UserSpec → Session → Reply User × Session
    unfolding create_payload create_object deleted_principal_filter
    create spec s = elim (validate spec "User.Create") [
      | some e ↦ (failed e, s)
      | none ↦
          create_object p a (user_resource a) now fuel c cfg
            (deleted_principal_filter a spec.sam_account_name) (create_payload a spec) s
    ]

    -- Update
    unfoldable pub update : Identity → UserSpec → Session → Reply User × Session
    unfolding plan_update update_object
    update id spec s = elim (validate spec "User.Update") [
      | some e ↦ (failed e, s)
      | none ↦ update_object p a (user_resource a) now fuel c cfg id (plan_update a id spec) s
    ]

-- ===== src/Client/Group.antt =====
-- group.go: groups. The membership is in Group/Membership.
pub mod Plans
pub mod Membership
use go_adpwsh.Prelude.{
  ℕ, String, Bool, true, false, Option, none, some, List, if◌then◌else◌, str_eq, ◌>>=◌,
}
use Prim.Native.String.{◌++◌ as str_append}
use go_adpwsh.Prelude.Json.{Value, lookup_member}
use go_adpwsh.Core.Errors.{Error, Result}
use go_adpwsh.Core.Decode.{as_str, as_members}
use go_adpwsh.Core.Mask.{dict, Entries, end, entry}
use go_adpwsh.Core.Exec.{Platform, Core, Session, M}
use go_adpwsh.Client.Replication.{ReplicationConfig}
use go_adpwsh.Client.Objects.Shape.{
  Identity, Checked, valid, invalid, Query, Adcore, text, text_list, put_text,
}
use go_adpwsh.Client.Objects.Access.{Resource, read, find}
use go_adpwsh.Client.Objects.Access
use go_adpwsh.Client.Objects.Writing.{Reply, failed, create_object, update_object}
use go_adpwsh.Client.Group.Plans.{
  Vocabulary, cmdlet_group_scope, cmdlet_group_category, group_project, Group, GroupSpec,
  plan_update,
}

pub record GroupJson : Type 0 where
  pub guid : String
  pub dn : String
  pub name : String
  pub sam_account_name : String
  pub scope : String
  pub category : String
  pub description : String
  pub managed_by : String
  pub sid : String

unfoldable pub decode_group : Value → Option GroupJson
decode_group v = do
  m ← as_members v
  guid ← as_str (lookup_member "objectGUID" m)
  dn ← as_str (lookup_member "distinguishedName" m)
  name ← as_str (lookup_member "name" m)
  sam_account_name ← as_str (lookup_member "samAccountName" m)
  scope ← as_str (lookup_member "scope" m)
  category ← as_str (lookup_member "category" m)
  description ← as_str (lookup_member "description" m)
  managed_by ← as_str (lookup_member "managedBy" m)
  sid ← as_str (lookup_member "sid" m)
  some (record {
    guid = guid;
    dn = dn;
    name = name;
    sam_account_name = sam_account_name;
    scope = scope;
    category = category;
    description = description;
    managed_by = managed_by;
    sid = sid;
  })

-- groupJSON.model
unfoldable pub group_model : Adcore → GroupJson → Checked Group
group_model a j = elim (a.container_of j.dn) [
  | invalid m ↦ invalid m
  | valid container ↦ valid (record {
    guid = j.guid;
    dn = j.dn;
    name = j.name;
    sam_account_name = j.sam_account_name;
    container = container;
    scope = j.scope;
    category = j.category;
    description = j.description;
    managed_by = j.managed_by;
    sid = j.sid;
  })
]

abbrev pub group_resource : Adcore → Resource GroupJson Group
group_resource a = record {
  noun = "Group";
  op_create = "group_create";
  op_read = "group_read";
  op_search = "group_search";
  op_update = "group_update";
  op_delete = "group_delete";
  project = group_project;
  decode = decode_group;
  model = group_model a;
  guid = λ o. o.guid;
  dn = λ o. o.dn;
}

-- The payload of Create, in which an empty category is a security group.
unfoldable pub create_payload : Vocabulary → GroupSpec → Entries
unfolding cmdlet_group_scope cmdlet_group_category put_text
create_payload v spec =
    let category = if str_eq spec.category "" then v.category_security else spec.category in
    let typed =
      entry "GroupScope" (text (cmdlet_group_scope v spec.scope))
        (entry "GroupCategory" (text (cmdlet_group_category v category)) end) in
    let named = entry "Name" (text spec.name) (
      entry "SamAccountName" (text spec.sam_account_name)
        (entry "Path" (text spec.container) typed)) in
    entry "create"
      (dict (put_text "ManagedBy" spec.managed_by (put_text "Description" spec.description named)))
      (entry "project" (text_list group_project) end)

-- deletedPrincipalFilter
unfoldable pub deleted_principal_filter : Adcore → String → String
deleted_principal_filter a sam =
    str_append "(&(isDeleted=TRUE)(sAMAccountName=" (str_append (a.escape_filter sam) "))")

module _ (p : Platform) (a : Adcore) where
  -- Get
  unfoldable pub get : Core → Identity → M Group
  unfolding read
  get = read p a (group_resource a)

  -- Search
  unfoldable pub search : Core → Query → M (List Group)
  unfolding find
  search = find p a (group_resource a)

  -- Delete
  unfoldable pub delete : Core → Identity → M (Unit {0})
  unfolding Access.delete
  delete = Access.delete p a (group_resource a)

  -- `validate` is GroupSpec.Validate of go-adcore; its flag says that the group is new.
  module _ (v : Vocabulary) (validate : GroupSpec → String → Bool → Option Error)
      (now : Session → ℕ) (fuel : ℕ) (c : Core) (cfg : ReplicationConfig) where
    -- Create
    unfoldable pub create : GroupSpec → Session → Reply Group × Session
    unfolding create_payload deleted_principal_filter create_object
    create spec s = elim (validate spec "Group.Create" true) [
      | some e ↦ (failed e, s)
      | none ↦
          create_object p a (group_resource a) now fuel c cfg
            (deleted_principal_filter a spec.sam_account_name) (create_payload v spec) s
    ]

    -- Update
    unfoldable pub update : Identity → GroupSpec → Session → Reply Group × Session
    unfolding plan_update update_object
    update id spec s = elim (validate spec "Group.Update" false) [
      | some e ↦ (failed e, s)
      | none ↦ update_object p a (group_resource a) now fuel c cfg id (plan_update a v id spec) s
    ]

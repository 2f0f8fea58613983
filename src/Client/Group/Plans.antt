-- ===== src/Client/Group/Plans.antt =====
-- group.go, the payload of Update; cmdletGroupScope and cmdletGroupCategory of cmdletvalues.go, which
-- drop their second result. The texts of the constants of go-adcore are parameters.
use go_adpwsh.Prelude.{String, Option, List, [], ◌∷◌, ◌||◌, if◌then◌else◌, str_eq}
use go_adpwsh.Core.Mask.{Entries, put}
use go_adpwsh.Client.Objects.Shape.{Identity, Adcore, Draft, apply_string_field, text}
use go_adpwsh.Client.Objects.Writing.{Plan}
use go_adpwsh.Client.Objects.Changes.{blank, plan_change}

pub record Vocabulary : Type 0 where
  pub scope_global : String
  pub scope_domain_local : String
  pub scope_universal : String
  pub category_security : String
  pub category_distribution : String

unfoldable pub cmdlet_group_scope : Vocabulary → String → String
cmdlet_group_scope v s =
    if str_eq s v.scope_global
    then "Global"
    else if str_eq s v.scope_domain_local
    then "DomainLocal"
    else if str_eq s v.scope_universal
    then "Universal"
    else ""

unfoldable pub cmdlet_group_category : Vocabulary → String → String
cmdlet_group_category v s =
    if str_eq s v.category_security
    then "Security"
    else if str_eq s v.category_distribution
    then "Distribution"
    else ""

abbrev pub group_project : List String
group_project = "Description" ∷ "ManagedBy" ∷ "GroupScope" ∷ "GroupCategory" ∷ "SamAccountName" ∷ []

pub record Group : Type 0 where
  pub guid : String
  pub dn : String
  pub name : String
  pub sam_account_name : String
  pub container : String
  pub scope : String
  pub category : String
  pub description : String
  pub managed_by : String
  pub sid : String

pub record GroupSpec : Type 0 where
  pub name : String
  pub sam_account_name : String
  pub container : String
  pub scope : String
  pub category : String
  pub description : Option String
  pub managed_by : Option String

-- if v != "" && v != current { set[k] = … }
unfoldable pub put_unless_same : String → String → String → String → Entries → Entries
unfolding put
put_unless_same k v current shown set =
    if str_eq v "" || str_eq v current then set else put k (text shown) set

-- if name != current.SamAccountName { set["SamAccountName"] = name }
unfoldable pub put_sam : String → String → Entries → Entries
unfolding put
put_sam name current set = if str_eq name current then set else put "SamAccountName" (text name) set

-- The parameters of Set-ADGroup, and what is cleared.
unfoldable pub draft : Vocabulary → Identity → GroupSpec → Group → Draft
unfolding apply_string_field put_sam put_unless_same cmdlet_group_scope cmdlet_group_category
draft v id spec current =
    let strings =
      apply_string_field "ManagedBy" "managedBy" spec.managed_by
        (apply_string_field "Description" "description" spec.description (blank id)) in
    let named = put_sam spec.sam_account_name current.sam_account_name strings.splat in
    let scoped =
      put_unless_same "GroupScope" spec.scope current.scope (cmdlet_group_scope v spec.scope)
        named in
    record strings {
      splat =
          put_unless_same "GroupCategory" spec.category current.category
            (cmdlet_group_category v spec.category) scoped;
    }

-- What Update makes of the group that it read.
unfoldable pub plan_update : Adcore → Vocabulary → Identity → GroupSpec → Group → Plan
unfolding draft plan_change
plan_update a v id spec current =
    plan_change a "Group.Update" id group_project (draft v id spec current)
      (record { name = spec.name; container = spec.container })
      (record { name = current.name; container = current.container })

-- ===== src/Script/Ops.antt =====
-- internal/adscript/ops.go: the closed sets of operation and tool names.
use go_adpwsh.Prelude.{String, List, [], ◌∷◌}

abbrev pub ops : List String
ops =
    "rootdse" ∷ "dclist" ∷ "deleted_probe" ∷ "replicate" ∷ "replicate_verify" ∷ "ou_create"
    ∷ "ou_read" ∷ "ou_update" ∷ "ou_delete" ∷ "group_create" ∷ "group_read" ∷ "group_update"
    ∷ "group_delete" ∷ "group_members_read" ∷ "group_members_read_recursive" ∷ "group_members_add"
    ∷ "group_members_remove" ∷ "group_member_check" ∷ "user_create" ∷ "user_read" ∷ "user_update"
    ∷ "user_delete" ∷ "user_setpassword" ∷ "ou_search" ∷ "group_search" ∷ "user_search"
    ∷ "gmsa_create" ∷ "gmsa_read" ∷ "gmsa_update" ∷ "gmsa_delete" ∷ "gmsa_search"
    ∷ "computer_create" ∷ "computer_read" ∷ "computer_update" ∷ "computer_delete"
    ∷ "computer_search" ∷ "acl_read" ∷ "acl_grant" ∷ "acl_revoke" ∷ "acl_read_clm" ∷ "acl_grant_clm"
    ∷ "acl_revoke_clm" ∷ "schema_resolve" ∷ []

abbrev pub tools : List String
tools = "schema_fetch" ∷ []

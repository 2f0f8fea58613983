-- ===== src/Client/Group/Membership.antt =====
-- group.go, the members of a group.
use go_adpwsh.Prelude.{ℕ, String, Bool, false, Option, some, List, [], ◌∷◌, if◌then◌else◌, ◌>>=◌}
use go_adpwsh.Prelude.Json.{Value, lookup_member}
use go_adpwsh.Core.Errors.{Result, ok, err, panic}
use go_adpwsh.Core.Decode.{as_str, as_bool, as_list, as_members}
use go_adpwsh.Core.Mask.{Entries, end, entry}
use go_adpwsh.Core.Exec.{Platform, Core, Session, M, exec}
use go_adpwsh.Client.Acl.{named_error, decode_guid}
use go_adpwsh.Client.Replication.{ReplicationConfig, Waited, arrived, gave_up, crashed, replicate}
use go_adpwsh.Client.Objects.Shape.{Identity, Adcore, text, text_list, identity_args}

-- Member, and memberJSON, which has the same fields.
pub record Member : Type 0 where
  pub guid : String
  pub dn : String
  pub class : String
  pub sid : String

abbrev pub decode_member : Value → Option Member
decode_member v = do
  m ← as_members v
  guid ← as_str (lookup_member "objectGUID" m)
  dn ← as_str (lookup_member "distinguishedName" m)
  class ← as_str (lookup_member "objectClass" m)
  sid ← as_str (lookup_member "sid" m)
  some (record { guid = guid; dn = dn; class = class; sid = sid })

abbrev pub decode_group_members : Value → Option (List Member)
decode_group_members v = do m ← as_members v; as_list decode_member (lookup_member "members" m)

abbrev pub decode_is_member : Value → Option Bool
decode_is_member v = do m ← as_members v; as_bool (lookup_member "member" m)

module _ (p : Platform) (a : Adcore) where
  abbrev pub one_group : Identity → Entries
  one_group group = entry "identity" (text group.arg) end

  -- Members
  unfoldable pub members : Core → Identity → M (List Member)
  unfolding exec
  members c group s =
      let out = exec p c decode_group_members "group_members_read" (one_group group) s in
      (named_error p a.with_identity "Group.Members" group.text out.0, out.1)

  -- MembersRecursive
  unfoldable pub members_recursive : Core → Identity → M (List Member)
  unfolding exec
  members_recursive c group s =
      let out = exec p c decode_group_members "group_members_read_recursive" (one_group group) s in
      (named_error p a.with_identity "Group.MembersRecursive" group.text out.0, out.1)

  -- A group or a member that is not found is not a member.
  unfoldable pub judge_membership : Identity → Result Bool → Result Bool
  judge_membership group (ok b) = ok b
  judge_membership group panic = panic
  judge_membership group (err e) =
      if a.is_not_found e then ok false else err (a.with_identity e "Group.IsMember" group.text)

  -- IsMember
  unfoldable pub is_member : Core → Identity → Identity → M Bool
  unfolding exec judge_membership
  is_member c group member s =
      let out =
        exec p c decode_is_member "group_member_check"
          (entry "group" (text group.arg) (entry "member" (text member.arg) end)) s in
      (judge_membership group out.0, out.1)

  -- The call of AddMembers or RemoveMembers.
  unfoldable pub write_members : String → Core → Identity → List Identity → M String
  unfolding identity_args exec
  write_members op c group ids =
      exec p c decode_guid op
        (entry "identity" (text group.arg) (entry "members" (text_list (identity_args ids)) end))

  module _ (now : Session → ℕ) (fuel : ℕ) (c : Core) (cfg : ReplicationConfig) where
    -- What AddMembers does with the outcome of its call.
    unfoldable pub added : Identity → Result String → Session → Waited × Session
    unfolding replicate
    added group (ok guid) s = replicate p now fuel c cfg guid s
    added group panic s = (crashed, s)
    added group (err e) s = (gave_up (a.with_identity e "Group.AddMembers" group.text), s)

    -- What RemoveMembers does with the outcome of its call.
    unfoldable pub removed : Identity → Result String → Session → Waited × Session
    unfolding replicate
    removed group (ok guid) s = replicate p now fuel c cfg guid s
    removed group panic s = (crashed, s)
    removed group (err e) s =
        if a.is_not_found e
        then (arrived, s)
        else (gave_up (a.with_identity e "Group.RemoveMembers" group.text), s)

    -- AddMembers
    unfoldable pub add_members : Identity → List Identity → Session → Waited × Session
    unfolding write_members added
    add_members group [] s = (arrived, s)
    add_members group (id ∷ ids) s =
        let out = write_members "group_members_add" c group (id ∷ ids) s in added group out.0 out.1

    -- RemoveMembers
    unfoldable pub remove_members : Identity → List Identity → Session → Waited × Session
    unfolding write_members removed
    remove_members group [] s = (arrived, s)
    remove_members group (id ∷ ids) s =
        let out = write_members "group_members_remove" c group (id ∷ ids) s in
        removed group out.0 out.1

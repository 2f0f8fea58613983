-- ===== src/Client/Ou.antt =====
-- ou.go: organizational units.
pub mod Plans
pub mod Script
pub mod Moves
pub mod Stale
use go_adpwsh.Prelude.{
  ℕ, String, Bool, true, false, not, Option, none, some, List, [], ◌∷◌, ◌&&◌, if◌then◌else◌, ◌>>=◌,
}
use Prim.Native.String.{◌++◌ as str_append}
use go_adpwsh.Prelude.Json.{ℤ, Value, lookup_member}
use go_adpwsh.Core.Errors.{
  Kind, constraint, Error, error_of, Result, ok, err, panic, Cause, children,
}
use go_adpwsh.Core.Decode.{as_str, as_bool, as_int, as_members}
use go_adpwsh.Core.Mask.{dict, Entries, end, entry}
use go_adpwsh.Core.Exec.{Platform, Core, Session, M, exec}
use go_adpwsh.Client.Replication.{ReplicationConfig}
use go_adpwsh.Client.Objects.Shape.{
  Identity, Checked, valid, invalid, PresenceCheck, Query, Adcore, text, flag, text_list, put_text,
  put_some,
}
use go_adpwsh.Client.Objects.Access.{Resource, read, find, confirm}
use go_adpwsh.Client.Objects.Writing.{Reply, failed, create_object, update_object}
use go_adpwsh.Client.Ou.Plans.{ou_project, Ou, OuSpec, plan_update}

pub record OuJson : Type 0 where
  pub guid : String
  pub dn : String
  pub name : String
  pub description : String
  pub protected : Bool

unfoldable pub decode_ou : Value → Option OuJson
decode_ou v = do
  m ← as_members v
  guid ← as_str (lookup_member "objectGUID" m)
  dn ← as_str (lookup_member "distinguishedName" m)
  name ← as_str (lookup_member "name" m)
  description ← as_str (lookup_member "description" m)
  protected ← as_bool (lookup_member "protected" m)
  some (record {
    guid = guid;
    dn = dn;
    name = name;
    description = description;
    protected = protected;
  })

-- ouJSON.model
unfoldable pub ou_model : Adcore → OuJson → Checked Ou
ou_model a j = elim (a.container_of j.dn) [
  | invalid m ↦ invalid m
  | valid container ↦ valid (record {
    guid = j.guid;
    dn = j.dn;
    name = j.name;
    container = container;
    description = j.description;
    protected = j.protected;
  })
]

abbrev pub ou_resource : Adcore → Resource OuJson Ou
ou_resource a = record {
  noun = "OU";
  op_create = "ou_create";
  op_read = "ou_read";
  op_search = "ou_search";
  op_update = "ou_update";
  op_delete = "ou_delete";
  project = ou_project;
  decode = decode_ou;
  model = ou_model a;
  guid = λ o. o.guid;
  dn = λ o. o.dn;
}

-- The payload of Create.
unfoldable pub create_payload : OuSpec → Entries
unfolding put_text put_some
create_payload spec =
    let named = entry "Name" (text spec.name) (entry "Path" (text spec.container) end) in
    let described = put_text "Description" spec.description named in
    entry "create" (dict (put_some "ProtectedFromAccidentalDeletion" flag spec.protected described))
      (entry "project" (text_list ou_project) end)

unfoldable pub deleted_filter : Adcore → String → String → String
deleted_filter a name container =
    str_append "(&(isDeleted=TRUE)(objectClass=organizationalUnit)(lastKnownParent=" (
      str_append (a.escape_filter container)
        (str_append ")(name=" (str_append (a.escape_filter name) "*))")))

-- ValidateName, then ValidateContainer
unfoldable pub validate : Adcore → String → OuSpec → Option Error
validate a op spec = elim (a.validate_name op spec.name) [
  | some e ↦ some e
  | none ↦ a.validate_container op spec.container
]

pub record DeleteReply : Type 0 where
  pub deleted : Bool
  pub child_count : ℤ
  pub verify : PresenceCheck

module _ (p : Platform) (a : Adcore) where
  -- Get
  unfoldable pub get : Core → Identity → M Ou
  unfolding read
  get = read p a (ou_resource a)

  -- Search
  unfoldable pub search : Core → Query → M (List Ou)
  unfolding find
  search = find p a (ou_resource a)

  abbrev pub decode_delete_reply : Value → Option DeleteReply
  decode_delete_reply v = do
    m ← as_members v
    deleted ← as_bool (lookup_member "deleted" m)
    child_count ← as_int (lookup_member "childCount" m)
    verify ← a.decode_presence (lookup_member "verify" m)
    some (record { deleted = deleted; child_count = child_count; verify = verify })

  -- The error of Delete for an organizational unit that is not empty.
  unfoldable pub not_empty : Identity → String → ℤ → Error
  not_empty id dn n = record (error_of constraint "OU.Delete" (children n)) {
    identity = id.text;
    target = dn;
  }

  -- What Delete does with the outcome of its call.
  unfoldable pub judge_delete : Identity → Ou → Result DeleteReply → Result (Unit {0})
  unfolding not_empty confirm
  judge_delete id current (err e) = err (a.with_identity e "OU.Delete" id.text)
  judge_delete id current panic = panic
  judge_delete id current (ok out) =
      if not out.deleted
      then err (not_empty id current.dn out.child_count)
      else confirm p a (ou_resource a) id current.dn out.verify

  -- The call of Delete; the flag is DeleteOptions.Unprotect.
  unfoldable pub ask_delete : Core → Bool → Ou → M DeleteReply
  unfolding exec
  ask_delete c unprotect current = exec p c decode_delete_reply "ou_delete" (
      entry "identity" (text current.guid)
        (entry "dn" (text current.dn) (entry "unprotect" (flag unprotect) end)))

  -- Delete, once the organizational unit is read
  unfoldable pub send_delete : Core → Identity → Bool → Ou → M (Unit {0})
  unfolding ask_delete judge_delete
  send_delete c id unprotect current s = (
    judge_delete id current (ask_delete c unprotect current s).0,
    (ask_delete c unprotect current s).1,
  )

  -- Delete
  unfoldable pub delete : Core → Identity → Bool → M (Unit {0})
  unfolding get send_delete
  delete c id unprotect s = elim (get c id s).0 [
    | ok current ↦ send_delete c id unprotect current (get c id s).1
    | err e ↦ (err e, (get c id s).1)
    | panic ↦ (panic, (get c id s).1)
  ]

  module _ (now : Session → ℕ) (fuel : ℕ) (c : Core) (cfg : ReplicationConfig) where
    -- Create
    unfoldable pub create : OuSpec → Session → Reply Ou × Session
    unfolding validate create_payload deleted_filter create_object
    create spec s = elim (validate a "OU.Create" spec) [
      | some e ↦ (failed e, s)
      | none ↦
          create_object p a (ou_resource a) now fuel c cfg
            (deleted_filter a spec.name spec.container) (create_payload spec) s
    ]

    -- Update
    unfoldable pub update : Identity → OuSpec → Session → Reply Ou × Session
    unfolding validate plan_update update_object
    update id spec s = elim (validate a "OU.Update" spec) [
      | some e ↦ (failed e, s)
      | none ↦ update_object p a (ou_resource a) now fuel c cfg id (plan_update a id spec) s
    ]

-- ===== src/Client/Acl.antt =====
-- acl_client.go, and cmdletInheritance of cmdletvalues.go. Of go-adcore, WithIdentity and the texts of
-- identities and of ACEType and Right are taken as they are: an identity is its text, a type and a
-- right are texts. The lock per object, which orders the writes of one process, is left out.
use go_adpwsh.Prelude.{
  ℕ, String, Bool, ◌||◌, Option, some, List, [], ◌∷◌, if◌then◌else◌, str_eq, ◌>>=◌,
}
use go_adpwsh.Prelude.Json.{
  Value, null, bool, str, arr, obj, Items, nil, cons, Members, member, lookup_member,
}
use go_adpwsh.Prelude.Json
use go_adpwsh.Core.Errors.{Error, Result, ok, err, panic}
use go_adpwsh.Core.Decode.{as_str, as_bool, as_list, as_members}
use go_adpwsh.Core.Mask.{leaf, end, entry}
use go_adpwsh.Core.Exec.{Platform, Core, Session, M, exec}
use go_adpwsh.Client.Replication.{ReplicationConfig, Waited, arrived, gave_up, crashed, replicate}

-- adcore.Inheritance: the three constants, and any other text.
pub data Inheritance : Type 0 where
  inherit_this inherit_descendants inherit_children : Inheritance
  inherit_other : String → Inheritance

pub record Ace : Type 0 where
  pub trustee : String
  pub kind : String
  pub rights : List String
  pub object_type : String
  pub inherited_object_type : String
  pub inheritance : Inheritance
  pub inherited : Bool

-- cmdletInheritance, whose second result is dropped by aceToPayload.
unfoldable pub cmdlet_inheritance : Inheritance → String
cmdlet_inheritance inherit_this = "None"
cmdlet_inheritance inherit_descendants = "Descendents"
cmdlet_inheritance inherit_children = "Children"
cmdlet_inheritance (inherit_other s) = ""

unfoldable pub inheritance_from_cmdlet : String → Inheritance
inheritance_from_cmdlet v =
    if str_eq v "None"
    then inherit_this
    else if str_eq v "Descendents" || str_eq v "All"
    then inherit_descendants
    else if str_eq v "Children" || str_eq v "SelfAndChildren"
    then inherit_children
    else inherit_other v

unfoldable pub normalize_guid : String → String
normalize_guid g = if str_eq g "00000000-0000-0000-0000-000000000000" then "" else g

unfoldable pub right_items : List String → Items
right_items [] = nil
right_items (r ∷ rs) = cons (str r) (right_items rs)

-- One element of aceToPayload.
unfoldable pub ace_value : Ace → Value
unfolding cmdlet_inheritance right_items
ace_value a = obj (
    member "trustee" (str a.trustee) (
      member "type" (str a.kind) (
        member "rights" (arr (right_items a.rights)) (
          member "objectType" (str a.object_type) (
            member "inheritedObjectType" (str a.inherited_object_type)
              (member "inheritance" (str (cmdlet_inheritance a.inheritance)) Json.end))))))

unfoldable pub ace_to_payload : List Ace → Items
unfolding ace_value
ace_to_payload [] = nil
ace_to_payload (a ∷ aces) = cons (ace_value a) (ace_to_payload aces)

-- A string as an element of a slice.
abbrev pub as_text : Value → Option String
as_text v = as_str (some v)

-- The aceJSON of one element of the reply, and its model.
unfoldable pub decode_ace : Value → Option Ace
unfolding normalize_guid inheritance_from_cmdlet
decode_ace v = do
  m ← as_members v
  trustee ← as_str (lookup_member "trustee" m)
  kind ← as_str (lookup_member "type" m)
  rights ← as_list as_text (lookup_member "rights" m)
  object_type ← as_str (lookup_member "objectType" m)
  inherited_object_type ← as_str (lookup_member "inheritedObjectType" m)
  inheritance ← as_str (lookup_member "inheritance" m)
  inherited ← as_bool (lookup_member "inherited" m)
  some (record {
    trustee = trustee;
    kind = kind;
    rights = rights;
    object_type = normalize_guid object_type;
    inherited_object_type = normalize_guid inherited_object_type;
    inheritance = inheritance_from_cmdlet inheritance;
    inherited = inherited;
  })

abbrev pub decode_aces : Value → Option (List Ace)
decode_aces v = do m ← as_members v; as_list decode_ace (lookup_member "aces" m)

abbrev pub decode_guid : Value → Option String
decode_guid v = do m ← as_members v; as_str (lookup_member "guid" m)

-- adcore.WithIdentity(err, op, target)
abbrev pub WithIdentity : Type 0
WithIdentity = Error → String → String → Error

module _ (p : Platform) (with_identity : WithIdentity) where
  abbrev pub named_error {ℓ} : {A : Type ℓ} → String → String → Result A → Result A
  named_error op target (ok a) = ok a
  named_error op target (err e) = err (with_identity e op target)
  named_error op target panic = panic

  -- Get
  unfoldable pub get_aces : Core → String → M (List Ace)
  unfolding exec
  get_aces c target s = (
    named_error "ACL.Get" target
        (exec p c decode_aces "acl_read" (entry "target" (leaf (str target)) end) s).0,
    (exec p c decode_aces "acl_read" (entry "target" (leaf (str target)) end) s).1,
  )

  -- The call of Grant or Revoke.
  unfoldable pub write_aces : String → Core → String → List Ace → M String
  unfolding exec ace_to_payload
  write_aces op c target aces =
      exec p c decode_guid op
        (entry "target" (leaf (str target)) (entry "aces" (leaf (arr (ace_to_payload aces))) end))

  module _ (now : Session → ℕ) (fuel : ℕ) where
    -- What Grant and Revoke do with the outcome of their call.
    unfoldable pub after_write :
        String → Core → ReplicationConfig → String → Result String → Session → Waited × Session
    unfolding replicate
    after_write name c cfg target (ok guid) s = replicate p now fuel c cfg guid s
    after_write name c cfg target (err e) s = (gave_up (with_identity e name target), s)
    after_write name c cfg target panic s = (crashed, s)

    -- Grant; the fuel is that of the wait for replication.
    unfoldable pub grant : Core → ReplicationConfig → String → List Ace → Session → Waited × Session
    unfolding write_aces after_write
    grant c cfg target [] s = (arrived, s)
    grant c cfg target (a ∷ aces) s =
        let out = write_aces "acl_grant" c target (a ∷ aces) s in
        after_write "ACL.Grant" c cfg target out.0 out.1

    -- Revoke
    unfoldable pub revoke :
        Core → ReplicationConfig → String → List Ace → Session → Waited × Session
    unfolding write_aces after_write
    revoke c cfg target [] s = (arrived, s)
    revoke c cfg target (a ∷ aces) s =
        let out = write_aces "acl_revoke" c target (a ∷ aces) s in
        after_write "ACL.Revoke" c cfg target out.0 out.1

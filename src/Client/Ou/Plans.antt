-- ===== src/Client/Ou/Plans.antt =====
-- ou.go, the payload of Update: where the protection from deletion is lifted and where it is set.
use go_adpwsh.Prelude.{
  String, Bool, true, false, not, Option, none, some, List, [], ◌∷◌, ◌&&◌, if◌then◌else◌,
}
use go_adpwsh.Core.Errors.{constraint, error_of, message}
use go_adpwsh.Core.Mask.{Entries, put}
use go_adpwsh.Script.Attrs.{written, refused, apply}
use go_adpwsh.Client.Objects.Shape.{
  Identity, valid, invalid, Adcore, Draft, apply_string_field, conflict_to_error, flag,
}
use go_adpwsh.Client.Objects.Writing.{Plan, reject, keep, send}
use go_adpwsh.Client.Objects.Changes.{is_absent, blank, base, with_set, with_rename, with_move}

abbrev pub ou_project : List String
ou_project = "Description" ∷ "ProtectedFromAccidentalDeletion" ∷ []

pub record Ou : Type 0 where
  pub guid : String
  pub dn : String
  pub name : String
  pub container : String
  pub description : String
  pub protected : Bool

pub record OuSpec : Type 0 where
  pub name : String
  pub container : String
  pub description : Option String
  pub protected : Option Bool

-- finalProtected
unfoldable pub final_protected : OuSpec → Ou → Bool
final_protected spec current = elim spec.protected [ none ↦ current.protected | some b ↦ b ]

unfoldable pub draft : Identity → OuSpec → Draft
unfolding apply_string_field
draft id spec = apply_string_field "Description" "description" spec.description (blank id)

-- x != y
abbrev pub differ : Bool → Bool → Bool
differ true y = not y
differ false y = y

-- The flag that lifts the protection, and the flag that sets it.
unfoldable pub with_protection : Bool → Bool → Bool → Entries → Entries
unfolding put
with_protection same current final payload =
    let lifts = not same && current in
    let after_move = if lifts then false else current in
    let lifted = if lifts then put "unprotectBeforeMove" (flag true) payload else payload in
    if differ final after_move then put "protect" (flag final) lifted else lifted

-- The last test before the call.
unfoldable pub settle_ou : Entries → Plan
unfolding is_absent
settle_ou payload =
    if is_absent "set" payload
      && (is_absent "rename" payload && (is_absent "move" payload && is_absent "protect" payload))
    then keep
    else send payload

-- What Update makes of the organizational unit that it read.
unfoldable pub plan_update : Adcore → Identity → OuSpec → Ou → Plan
unfolding draft final_protected apply conflict_to_error with_set with_rename with_move
    with_protection settle_ou
plan_update a id spec current = elim (apply (draft id spec).ops (draft id spec).splat) [
  | refused conflict ↦ reject (conflict_to_error "OU.Update" conflict)
  | written set ↦ elim (a.equal_fold_dn spec.container current.container) [
    | invalid m ↦ reject (error_of constraint "OU.Update" (message m))
    | valid same ↦ settle_ou (
        with_protection same current.protected (final_protected spec current) (
          with_move id spec.container same
            (with_rename id spec.name current.name (with_set set (base id ou_project)))))
  ]
]

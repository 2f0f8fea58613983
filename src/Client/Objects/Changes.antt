-- ===== src/Client/Objects/Changes.antt =====
-- The payload of an Update: the attribute write, the rename and the move in one.
use go_adpwsh.Prelude.{
  ℕ, suc, String, Bool, true, false, none, some, List, ◌&&◌, if◌then◌else◌, str_eq, ltb,
}
use go_adpwsh.Core.Errors.{constraint, error_of, message}
use go_adpwsh.Core.Mask.{Payload, dict, Entries, end, entry, get, put}
use go_adpwsh.Script.Attrs.{no_ops, written, refused, apply}
use go_adpwsh.Client.Objects.Shape.{
  Identity, valid, invalid, Adcore, Draft, conflict_to_error, text, text_list,
}
use go_adpwsh.Client.Objects.Writing.{Plan, reject, keep, send}

-- len(set)
unfoldable pub size : Entries → ℕ
size end = 0
size (entry k v es) = suc (size es)

-- payload[k] == nil
unfoldable pub is_absent : String → Entries → Bool
unfolding get
is_absent k es = elim (get k es) [ none ↦ true | some v ↦ false ]

-- map[string]any{"Identity": …, k: v}
abbrev pub identified : Identity → String → String → Payload
identified id k v = dict (entry "Identity" (text id.arg) (entry k (text v) end))

-- The draft that each Update starts from.
abbrev pub blank : Identity → Draft
blank id = record { ops = no_ops; splat = entry "Identity" (text id.arg) end }

abbrev pub base : Identity → List String → Entries
base id project = entry "identity" (text id.arg) (entry "project" (text_list project) end)

-- if len(set) > 1 { payload["set"] = set }
unfoldable pub with_set : Entries → Entries → Entries
unfolding size put
with_set set payload = if ltb 1 (size set) then put "set" (dict set) payload else payload

-- if name != current.Name { payload["rename"] = … }
unfoldable pub with_rename : Identity → String → String → Entries → Entries
unfolding put
with_rename id name current payload =
    if str_eq name current then payload else put "rename" (identified id "NewName" name) payload

-- if !sameContainer { payload["move"] = … }
unfoldable pub with_move : Identity → String → Bool → Entries → Entries
unfolding put
with_move id container same payload =
    if same then payload else put "move" (identified id "TargetPath" container) payload

-- The last test before the call.
unfoldable pub settle : Entries → Plan
unfolding is_absent
settle payload =
    if is_absent "set" payload && (is_absent "rename" payload && is_absent "move" payload)
    then keep
    else send payload

-- An object that is to have a name and stand in a container.
pub record Placed : Type 0 where
  pub name : String
  pub container : String

-- What follows the draft of the attributes in Update, whose operation is `op`.
unfoldable pub plan_change :
    Adcore → String → Identity → List String → Draft → Placed → Placed → Plan
unfolding apply conflict_to_error with_set with_rename with_move settle
plan_change a op id project d wanted current = elim (apply d.ops d.splat) [
  | refused conflict ↦ reject (conflict_to_error op conflict)
  | written set ↦ elim (a.equal_fold_dn wanted.container current.container) [
    | invalid m ↦ reject (error_of constraint op (message m))
    | valid same ↦ settle (
        with_move id wanted.container same
          (with_rename id wanted.name current.name (with_set set (base id project))))
  ]
]

-- ===== src/Client/Objects/Shape.antt =====
-- The data that the sub-clients share, spec.go, and queryPayload and cmdletScope of cmdletvalues.go.
use go_adpwsh.Prelude.{
  ℕ, ◌+◌, String, Bool, true, false, Option, none, some, List, [], ◌∷◌, if◌then◌else◌, str_eq,
}
use go_adpwsh.Prelude.Json.{ℤ, pos, Value, str, num, arr, Items, nil, cons}
use go_adpwsh.Core.Errors.{Kind, constraint, Error, error_of, conflict, classify}
use go_adpwsh.Core.Mask.{Payload, leaf, Entries, end, entry, put}
use go_adpwsh.Client.Acl.{WithIdentity}
use go_adpwsh.Script.Attrs.{
  AttrOp, op_add, op_clear, op_remove, op_replace, AttrOps, clear_name, ConflictError,
}

-- What the sources use of an adcore.Identity: its String() and adcore.IdentityArg of it.
pub record Identity : Type 0 where
  pub text : String
  pub arg : String

-- A Go call that returns a value or an error, of which the message is kept.
pub data Checked {ℓ} (A : Type ℓ) : Type ℓ where
  valid : A → Checked A
  invalid : String → Checked A

-- A time.Time in UTC, as its distance from an epoch.
abbrev pub Instant : Type 0
Instant = ℤ

-- adcore.PresenceCheck: the fields that classify reads and writes, and the document of the others.
pub record PresenceCheck : Type 0 where
  pub exception_type : String
  pub error_code : ℤ
  pub kind : Kind
  pub others : Value

-- adcore.SearchScope: the empty text, the three constants, and any other text.
pub data SearchScope : Type 0 where
  scope_unset scope_subtree scope_base scope_one_level : SearchScope
  scope_other : String → SearchScope

-- adcore.Query; its limit is that of a query after WithDefaults, which is not negative.
pub record Query : Type 0 where
  pub filter : String
  pub search_base : String
  pub scope : SearchScope
  pub size_limit : ℕ

pub record Adcore : Type 0 where
  pub container_of : String → Checked String
  pub equal_fold_dn : String → String → Checked Bool
  pub escape_filter : String → String
  pub with_identity : WithIdentity
  pub is_not_found : Error → Bool
  pub validate_name : String → String → Option Error
  pub validate_container : String → String → Option Error
  pub decode_presence : Option Value → Option PresenceCheck
  pub confirm_absent : PresenceCheck → String → Identity → String → Option Error
  pub with_defaults : Query → String → Query
  pub parse_time : String → Checked Instant
  pub format_time : Instant → String

-- errors.go, classify
unfoldable pub classify_presence : (ℤ → Option Kind) → PresenceCheck → PresenceCheck
unfolding classify
classify_presence classify_code c = record c {
  kind = classify classify_code c.exception_type c.error_code;
}

-- A []string in a payload.
abbrev pub texts : List String → Items
texts [] = nil
texts (t ∷ ts) = cons (str t) (texts ts)

abbrev pub text_list : List String → Payload
text_list ts = leaf (arr (texts ts))

abbrev pub text : String → Payload
text t = leaf (str t)

abbrev pub flag : Bool → Payload
flag b = leaf (Value.bool b)

-- identityArgs, and its use as a payload
unfoldable pub identity_args : List Identity → List String
identity_args [] = []
identity_args (id ∷ ids) = id.arg ∷ identity_args ids

-- if v != nil && *v != "" { create[k] = *v }
unfoldable pub put_text : String → Option String → Entries → Entries
unfolding put
put_text k none create = create
put_text k (some v) create = if str_eq v "" then create else put k (text v) create

-- if v != nil { m[k] = *v }, with the payload that *v is
unfoldable pub put_some {ℓ} : {A : Type ℓ} → String → (A → Payload) → Option A → Entries → Entries
unfolding put
put_some k f none m = m
put_some k f (some v) m = put k (f v) m

-- if v != nil && *v != current { set[k] = f(*v) }
unfoldable pub put_changed : String → (Bool → Payload) → Option Bool → Bool → Entries → Entries
unfolding put
put_changed k f none current set = set
put_changed k f (some true) true set = set
put_changed k f (some false) false set = set
put_changed k f (some b) _ set = put k (f b) set

-- The two things that a write is built of: the operations on attributes and the splat.
pub record Draft : Type 0 where
  pub ops : AttrOps
  pub splat : Entries

-- applyStringField
unfoldable pub apply_string_field : String → String → Option String → Draft → Draft
unfolding put clear_name
apply_string_field param ldap_name none d = d
apply_string_field param ldap_name (some v) d =
    if str_eq v ""
    then record d { ops = clear_name ldap_name d.ops }
    else record d { splat = put param (text v) d.splat }

-- The names that payload.go gives the operations.
unfoldable pub op_names : List AttrOp → List String
op_names [] = []
op_names (op_add ∷ ops) = "Add" ∷ op_names ops
op_names (op_clear ∷ ops) = "Clear" ∷ op_names ops
op_names (op_remove ∷ ops) = "Remove" ∷ op_names ops
op_names (op_replace ∷ ops) = "Replace" ∷ op_names ops

-- conflictToError, on the error that Apply returns
unfoldable pub conflict_to_error : String → ConflictError → Error
unfolding op_names
conflict_to_error op c = error_of constraint op (conflict c.attribute (op_names c.ops))

-- cmdletScope; queryPayload drops the second result.
unfoldable pub cmdlet_scope : SearchScope → String
cmdlet_scope scope_unset = "Subtree"
cmdlet_scope scope_subtree = "Subtree"
cmdlet_scope scope_base = "Base"
cmdlet_scope scope_one_level = "OneLevel"
cmdlet_scope (scope_other s) = ""

unfoldable pub query_payload : Query → List String → Entries
unfolding cmdlet_scope
query_payload q project =
    entry "filter" (text (if str_eq q.filter "" then "(objectClass=*)" else q.filter)) (
      entry "searchBase" (text q.search_base) (
        entry "scope" (text (cmdlet_scope q.scope)) (
          entry "sizeLimit" (leaf (num (pos (q.size_limit + 1))))
            (entry "project" (text_list project) end))))

-- ===== src/Client/Schema.antt =====
-- schema_resolve.go: names of the schema become GUIDs, from a table or from the directory.
-- adcore.EscapeFilter and the texts of go-adcore's SchemaRefKind are parameters.
use go_adpwsh.Prelude.{
  String, Bool, true, false, ◌&&◌, Option, none, some, List, [], ◌∷◌, if◌then◌else◌, str_eq, ◌>>=◌,
}
use Prim.Native.String.{◌++◌ as str_append}
use go_adpwsh.Prelude.Json.{
  Value, str, arr, obj, Items, nil, cons, Members, end, member, lookup_member, null,
}
use go_adpwsh.Core.Errors.{Result, ok, err, panic}
use go_adpwsh.Core.Decode.{as_str, as_members}
use go_adpwsh.Core.Mask.{leaf, entry}
use go_adpwsh.Core.Mask
use go_adpwsh.Core.Exec.{Platform, Core, M, exec}

-- SchemaRefKind and SchemaRef, re-exported by alias.go from go-adcore
pub data RefKind : Type 0 where
  ref_class ref_attribute ref_extended_right : RefKind

pub record SchemaRef : Type 0 where
  pub kind : RefKind
  pub name : String

-- What go-adcore supplies.
pub record Names : Type 0 where
  pub escape_filter : String → String
  pub kind_text : RefKind → String

abbrev pub same_kind : RefKind → RefKind → Bool
same_kind ref_class ref_class = true
same_kind ref_attribute ref_attribute = true
same_kind ref_extended_right ref_extended_right = true
same_kind _ _ = false

-- Equality of the keys of the Go maps.
unfoldable pub same_ref : SchemaRef → SchemaRef → Bool
same_ref a b = same_kind a.kind b.kind && str_eq a.name b.name

-- map[SchemaRef]string; what was written last stands first.
abbrev pub Table : Type 0
Table = List (SchemaRef × String)

unfoldable pub lookup_ref : SchemaRef → Table → Option String
unfolding same_ref
lookup_ref ref [] = none
lookup_ref ref ((r, guid) ∷ rest) = if same_ref r ref then some guid else lookup_ref ref rest

abbrev pub well_known : Table
well_known =
    (
      record { kind = ref_extended_right; name = "Reset Password" },
      "00299570-246d-11d0-a768-00aa006e0529",
    )
    ∷ (record { kind = ref_class; name = "user" }, "bf967aba-0de6-11d0-a285-00aa003049e2")
    ∷ (record { kind = ref_class; name = "group" }, "bf967a9c-0de6-11d0-a285-00aa003049e2")
    ∷ (record { kind = ref_attribute; name = "member" }, "bf9679c0-0de6-11d0-a285-00aa003049e2")
    ∷ (record { kind = ref_attribute; name = "pwdLastSet" }, "bf967a0a-0de6-11d0-a285-00aa003049e2")
    ∷ []

unfoldable pub well_known_guid : SchemaRef → Option String
unfolding lookup_ref
well_known_guid ref = lookup_ref ref well_known

abbrev filter_of : String → String → String → String
filter_of class attribute name = str_append "(&(objectClass=" (
    str_append class
      (str_append ")(" (str_append attribute (str_append "=" (str_append name "))")))))

unfoldable pub resolve_filter : Names → SchemaRef → String
resolve_filter names ref = elim ref.kind [
  | ref_class ↦ filter_of "classSchema" "lDAPDisplayName" (names.escape_filter ref.name)
  | ref_extended_right ↦ filter_of "controlAccessRight" "displayName" (names.escape_filter ref.name)
  | ref_attribute ↦ filter_of "attributeSchema" "lDAPDisplayName" (names.escape_filter ref.name)
]

-- The refs that the table of well-known names does not answer, in order.
unfoldable pub misses : List SchemaRef → List SchemaRef
misses [] = []
misses (ref ∷ refs) = elim (well_known_guid ref) [
  | some guid ↦ misses refs
  | none ↦ ref ∷ misses refs
]

-- The entries that the first loop of Resolve writes.
unfoldable pub known : List SchemaRef → Table → Table
known [] out = out
known (ref ∷ refs) out = elim (well_known_guid ref) [
  | some guid ↦ known refs ((ref, guid) ∷ out)
  | none ↦ known refs out
]

-- payloadRefs, a []map[string]any
unfoldable pub payload_refs : Names → List SchemaRef → Items
unfolding resolve_filter
payload_refs names [] = nil
payload_refs names (ref ∷ refs) =
    cons
      (obj (
        member "kind" (str (names.kind_text ref.kind))
          (member "name" (str ref.name) (member "filter" (str (resolve_filter names ref)) end))))
      (payload_refs names refs)

-- A map[string]string of the reply.
unfoldable pub decode_texts : Members → Option (List (String × String))
decode_texts end = some []
decode_texts (member k v m) = do
  text ← as_str (some v)
  rest ← decode_texts m
  some ((k, text) ∷ rest)

abbrev pub decode_resolved : Value → Option (List (String × String))
decode_resolved v = do
  m ← as_members v
  inner ← as_members (elim (lookup_member "resolved" m) [ none ↦ null | some w ↦ w ])
  decode_texts inner

-- res.Resolved[name]; a missing key reads as "".
unfoldable pub resolved_guid : String → List (String × String) → String
resolved_guid name [] = ""
resolved_guid name ((k, guid) ∷ rest) = if str_eq k name then guid else resolved_guid name rest

-- The last loop of Resolve.
unfoldable pub write_resolved : List (String × String) → List SchemaRef → Table → Table
unfolding resolved_guid
write_resolved resolved [] out = out
write_resolved resolved (ref ∷ miss) out =
    write_resolved resolved miss ((ref, resolved_guid ref.name resolved) ∷ out)

-- What Resolve makes of the reply of the directory.
abbrev pub answer : List SchemaRef → Result (List (String × String)) → Result Table
answer refs (ok resolved) = ok (write_resolved resolved (misses refs) (known refs []))
answer refs (err e) = err e
answer refs panic = panic

module _ (p : Platform) (names : Names) where
  -- The round trip of Resolve.
  unfoldable pub ask : Core → List SchemaRef → M (List (String × String))
  unfolding payload_refs exec
  ask c miss =
      exec p c decode_resolved "schema_resolve"
        (entry "refs" (leaf (arr (payload_refs names miss))) Mask.end)

  -- Resolve
  unfoldable pub resolve : Core → List SchemaRef → M Table
  unfolding misses known ask write_resolved
  resolve c refs s = elim (misses refs) [
    | [] ↦ (ok (known refs []), s)
    | ref ∷ miss ↦ (answer refs (ask c (ref ∷ miss) s).0, (ask c (ref ∷ miss) s).1)
  ]

-- ===== src/Tests/Directory.antt =====
-- internal/adschema/resolve.go, schema_resolve.go and the tombstone probe of core.go.
use go_adpwsh.Prelude.{
  ◌+◌, length, All, ◌≡◌, ◌≢◌, refl, String, Bool, false, ◌⊎◌, Option, none, some, List, [], ◌∷◌,
}
use go_adpwsh.Prelude.Text.{codes}
use go_adpwsh.Core.Errors.{ok}
use go_adpwsh.Adschema.Resolve.{RawClass, Raw, Contributions}
use go_adpwsh.Adschema.Catalog.{resolve_classes, classes, stuck}
use go_adpwsh.Adschema.Effective.{resolve_classes-ne-stuck}
use go_adpwsh.Adschema.Resolve.{record_class, enqueue}
use go_adpwsh.Client.Schema.{
  ref_class, ref_attribute, SchemaRef, Names, Table, well_known_guid, lookup_ref, resolve,
}
use go_adpwsh.Client.Resolution.{Answers, resolve-Answers, resolve-same_name}
use go_adpwsh.Core.Decode.{decode_items}
use go_adpwsh.Client.Acl.{
  Ace, inherit_descendants, inherit_other, ace_value, ace_to_payload, decode_ace,
}
use go_adpwsh.Client.AclRoundTrip.{decode_items-ace_to_payload, decode_ace-inherit_other}
use go_adpwsh.Tests.Demo.{demo, client, idle_session}

-- A class that is its own parent.
abbrev top : RawClass
top = record {
  name = codes "top";
  category = 2;
  sub_class_of = codes "TOP";
  auxiliary_class = [];
  system_auxiliary_class = [];
  may_contain = codes "CN" ∷ [];
  system_may_contain = [];
  must_contain = [];
  system_must_contain = [];
}

abbrev small : Raw
small = record { classes = top ∷ []; attributes = codes "cn" ∷ [] }

resolve_classes-ne-stuck_example : resolve_classes small (codes "TOP" ∷ []) [] ≢ stuck
resolve_classes-ne-stuck_example = resolve_classes-ne-stuck small (codes "TOP" ∷ []) []

-- A class below a class that demands the attribute it has as an optional one.
abbrev root : RawClass
root = record top { may_contain = []; must_contain = codes "CN" ∷ [] }

abbrev person : RawClass
person = record top {
  name = codes "person";
  sub_class_of = codes "top";
  may_contain = codes "cn" ∷ [];
}

abbrev two : Raw
two = record { classes = root ∷ person ∷ []; attributes = codes "cn" ∷ [] }

small-resolved :
    resolve_classes small (codes "TOP" ∷ []) []
    ≡ classes (
        (
          codes "top",
          record {
            structural = false;
            mandatory = [];
            optional = codes "cn" ∷ [];
            via = (codes "cn", codes "top") ∷ [];
          },
        )
        ∷ [])
unfolding resolve_classes go_adpwsh.Adschema.Resolve.record_class go_adpwsh.Adschema.Resolve.enqueue
small-resolved = refl

abbrev names : Names
names = record { escape_filter = λ s. s; kind_text = λ k. "kind" }

abbrev class_x : SchemaRef
class_x = record { kind = ref_class; name = "x" }

abbrev attribute_x : SchemaRef
attribute_x = record { kind = ref_attribute; name = "x" }

abbrev user_class : SchemaRef
user_class = record { kind = ref_class; name = "user" }

abbrev asked : List SchemaRef
asked = class_x ∷ user_class ∷ attribute_x ∷ []

abbrev told : Table
told =
    (attribute_x, "1") ∷ (class_x, "1") ∷ (user_class, "bf967aba-0de6-11d0-a285-00aa003049e2") ∷ []

resolve-told : (resolve demo names client asked idle_session).0 ≡ ok told
unfolding resolve well_known_guid go_adpwsh.Script.Compose.script_for
    go_adpwsh.Core.Envelope.parse_envelope go_adpwsh.Prelude.Text.index
    go_adpwsh.Core.Envelope.parse_body go_adpwsh.Prelude.Text.slice
    go_adpwsh.Prelude.Json.lookup_member go_adpwsh.Client.Schema.decode_texts
resolve-told = refl

resolve-Answers_example : Answers demo names client asked idle_session class_x told
unfolding go_adpwsh.Client.Tables.has_ref
resolve-Answers_example =
    resolve-Answers demo names client asked idle_session class_x told refl resolve-told

resolve-same_name_example : lookup_ref class_x told ≡ lookup_ref attribute_x told
unfolding go_adpwsh.Client.Tables.has_ref well_known_guid
resolve-same_name_example =
    resolve-same_name demo names client asked idle_session class_x attribute_x told refl refl refl
      refl refl resolve-told

abbrev ace : Ace
ace = record {
  trustee = "S-1";
  kind = "Allow";
  rights = "GenericAll" ∷ [];
  object_type = "";
  inherited_object_type = "";
  inheritance = inherit_descendants;
  inherited = false;
}

decode_items-ace_to_payload_example :
    decode_items decode_ace (ace_to_payload (ace ∷ [])) ≡ some (ace ∷ [])
decode_items-ace_to_payload_example =
    decode_items-ace_to_payload (ace ∷ []) ((tt, λ e. cc, λ e. cc, refl), tt)

abbrev misspelt : Ace
misspelt = record ace { inheritance = inherit_other "Descendants" }

decode_ace-inherit_other_example :
    decode_ace (ace_value misspelt) ≡ some (record misspelt { inheritance = inherit_other "" })
decode_ace-inherit_other_example =
    decode_ace-inherit_other misspelt "Descendants" refl (λ e. cc) (λ e. cc) refl

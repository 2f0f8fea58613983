-- ===== src/Client/AclRoundTrip.antt =====
-- An entry of an access list as the client sends it, read back the way the client reads one.
use go_adpwsh.Prelude.{
  ◌≡◌, ◌≢◌, refl, sym, ap, ◌∙◌, String, Bool, true, false, ◌||◌, Option, none, some, List, [], ◌∷◌,
  if◌then◌else◌, str_eq, Bool-cases, eq_iff, inl, inr, All, arith,
}
use go_adpwsh.Prelude.Json.{Value, arr, Items}
use go_adpwsh.Core.Decode.{decode_items}
use go_adpwsh.Client.Acl.{
  Inheritance, inherit_this, inherit_descendants, inherit_children, inherit_other, Ace,
  cmdlet_inheritance, inheritance_from_cmdlet, normalize_guid, right_items, as_text, ace_value,
  ace_to_payload, decode_ace,
}

-- One of the three inheritances that the cmdlets accept.
abbrev pub IsValid : Inheritance → Type 0
IsValid (inherit_other s) = true ≡ false
IsValid _ = Unit

abbrev pub zero_guid : String
zero_guid = "00000000-0000-0000-0000-000000000000"

-- An explicit entry that can be written and read back.
abbrev pub IsWritable : Ace → Type 0
IsWritable a =
    IsValid a.inheritance
    × (a.object_type ≢ zero_guid)
    × (a.inherited_object_type ≢ zero_guid)
    × (a.inherited ≡ false)

inheritance_from_cmdlet-cmdlet_inheritance :
    (i : Inheritance) → IsValid i → inheritance_from_cmdlet (cmdlet_inheritance i) ≡ i
unfolding inheritance_from_cmdlet cmdlet_inheritance
inheritance_from_cmdlet-cmdlet_inheritance inherit_this h = refl
inheritance_from_cmdlet-cmdlet_inheritance inherit_descendants h = refl
inheritance_from_cmdlet-cmdlet_inheritance inherit_children h = refl
inheritance_from_cmdlet-cmdlet_inheritance (inherit_other s) h = cc

normalize_guid_same : (g : String) → g ≢ zero_guid → normalize_guid g ≡ g
unfolding normalize_guid
normalize_guid_same g h = elim (Bool-cases (str_eq g zero_guid)) [
  | inl hit ↦ absurd (h ((eq_iff g zero_guid).0 hit))
  | inr miss ↦ ground (arith, miss)
]

decode_items-right_items : (rs : List String) → decode_items as_text (right_items rs) ≡ some rs
unfolding decode_items right_items
decode_items-right_items [] = refl
decode_items-right_items (r ∷ rs) = rw (decode_items-right_items rs)

-- What reading makes of the fields of an entry that was written.
abbrev read_back : Ace → Ace
read_back a = record a {
  object_type = normalize_guid a.object_type;
  inherited_object_type = normalize_guid a.inherited_object_type;
  inheritance = inheritance_from_cmdlet (cmdlet_inheritance a.inheritance);
  inherited = false;
}

decode_ace-read_back : (a : Ace) → decode_ace (ace_value a) ≡ some (read_back a)
unfolding decode_ace ace_value go_adpwsh.Prelude.Json.lookup_member
decode_ace-read_back a = rw (decode_items-right_items a.rights)

decode_ace-ace_value : (a : Ace) → IsWritable a → decode_ace (ace_value a) ≡ some a
decode_ace-ace_value a (valid, typed, inheriting, explicit) = decode_ace-read_back a ∙ (λ i.
    some (record a {
      object_type = normalize_guid_same a.object_type typed i;
      inherited_object_type = normalize_guid_same a.inherited_object_type inheriting i;
      inheritance = inheritance_from_cmdlet-cmdlet_inheritance a.inheritance valid i;
      inherited = sym explicit i;
    }))

-- The entries that Grant and Revoke send, if each has one of the three inheritances, no all-zero GUID
-- and is not marked as inherited, are the entries that Get makes of the same document.
pub decode_items-ace_to_payload :
    (aces : List Ace)
    → All IsWritable aces
    → decode_items decode_ace (ace_to_payload aces) ≡ some aces
unfolding decode_items ace_to_payload
decode_items-ace_to_payload [] h = refl
decode_items-ace_to_payload (a ∷ aces) (writable, rest) =
    rw (decode_ace-ace_value a writable, decode_items-ace_to_payload aces rest)

-- An inheritance that is not one of the three is not sent as it is: the entry reads back with the empty
-- text in its place.
pub decode_ace-inherit_other :
    (a : Ace) (s : String)
    → a.inheritance ≡ inherit_other s
    → a.object_type ≢ zero_guid
    → a.inherited_object_type ≢ zero_guid
    → a.inherited ≡ false
    → decode_ace (ace_value a) ≡ some (record a { inheritance = inherit_other "" })
unfolding inheritance_from_cmdlet cmdlet_inheritance
decode_ace-inherit_other a s other typed inheriting explicit = decode_ace-read_back a ∙ (λ i.
    some (record a {
      object_type = normalize_guid_same a.object_type typed i;
      inherited_object_type = normalize_guid_same a.inherited_object_type inheriting i;
      inheritance = (ap (λ j. inheritance_from_cmdlet (cmdlet_inheritance j)) other) i;
      inherited = sym explicit i;
    }))

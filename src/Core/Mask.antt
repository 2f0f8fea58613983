-- ===== src/Core/Mask.antt =====
-- core.go, maskedKeys and maskPayload, with the payload type `map[string]any`.
use go_adpwsh.Prelude.{
  String, Bool, false, ◌||◌, List, [], ◌∷◌, if◌then◌else◌, str_eq, Option, none, some,
}
use go_adpwsh.Prelude.Text.{Bytes, codes, to_lower, bytes_eq}
use go_adpwsh.Prelude.Json.{Value, str, Items, Members}

-- A Go value of type `any` in a payload. maskPayload enters `map[string]any` (`dict`) and `[]any`
-- (`seq`); a value of any other dynamic type is `leaf`, with the document that it marshals to.
mutual
  pub data Payload : Type 0 where
    dict : Entries → Payload
    seq : Elements → Payload
    leaf : Value → Payload

  pub data Entries : Type 0 where
    end : Entries
    entry : String → Payload → Entries → Entries

  pub data Elements : Type 0 where
    nil : Elements
    cons : Payload → Elements → Elements

-- payload[k] = v
unfoldable pub put : String → Payload → Entries → Entries
put k v end = entry k v end
put k v (entry j w es) = if str_eq j k then entry j v es else entry j w (put k v es)

unfoldable pub get : String → Entries → Option Payload
get k end = none
get k (entry j w es) = if str_eq j k then some w else get k es

abbrev pub masked_keys : List String
masked_keys = "password" ∷ "accountpassword" ∷ "newpassword" ∷ "oldpassword" ∷ "credential" ∷ []

unfoldable pub contains_key : List String → Bytes → Bool
contains_key [] k = false
contains_key (m ∷ ms) k = bytes_eq (codes m) k || contains_key ms k

-- maskedKeys[strings.ToLower(k)]
unfoldable pub is_masked_key : String → Bool
unfolding contains_key bytes_eq to_lower
is_masked_key k = contains_key masked_keys (to_lower (codes k))

abbrev pub redacted : Payload
redacted = leaf (str "REDACTED")

unfoldable mutual
  pub mask_payload : Payload → Payload
  mask_payload (dict es) = dict (mask_entries es)
  mask_payload (seq xs) = seq (mask_elements xs)
  mask_payload (leaf v) = leaf v

  pub mask_entries : Entries → Entries
  mask_entries end = end
  mask_entries (entry k v es) =
      entry k (if is_masked_key k then redacted else mask_payload v) (mask_entries es)

  pub mask_elements : Elements → Elements
  mask_elements nil = nil
  mask_elements (cons v xs) = cons (mask_payload v) (mask_elements xs)

-- The document that encoding/json makes of a payload.
unfoldable mutual
  pub document : Payload → Value
  document (dict es) = Value.obj (document_entries es)
  document (seq xs) = Value.arr (document_elements xs)
  document (leaf v) = v

  pub document_entries : Entries → Members
  document_entries end = Members.end
  document_entries (entry k v es) = Members.member k (document v) (document_entries es)

  pub document_elements : Elements → Items
  document_elements nil = Items.nil
  document_elements (cons v xs) = Items.cons (document v) (document_elements xs)

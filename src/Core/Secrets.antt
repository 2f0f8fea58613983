-- ===== src/Core/Secrets.antt =====
-- What a masked payload reveals: nothing of the values under the masked keys.
use go_adpwsh.Prelude.{String, ◌≡◌, refl, ap, Bool, true, false, if◌then◌else◌}
use go_adpwsh.Prelude.Json.{Value}
use go_adpwsh.Core.Mask.{
  Payload, dict, seq, leaf, Entries, end, entry, Elements, nil, cons, is_masked_key, redacted,
  mask_payload, mask_entries, mask_elements,
}

-- Two payloads of the same shape that differ only in values under masked keys.
mutual
  pub data Agree : Payload → Payload → Type 0 where
    dicts : {es fs : Entries} → AgreeEntries es fs → Agree (dict es) (dict fs)
    seqs : {xs ys : Elements} → AgreeElements xs ys → Agree (seq xs) (seq ys)
    leaves : (v : Value) → Agree (leaf v) (leaf v)

  pub data AgreeEntries : Entries → Entries → Type 0 where
    ends : AgreeEntries end end
    secret :
        {es fs : Entries} (k : String) (v w : Payload)
        → is_masked_key k ≡ true
        → AgreeEntries es fs
        → AgreeEntries (entry k v es) (entry k w fs)
    plain :
        {es fs : Entries} {v w : Payload} (k : String)
        → Agree v w
        → AgreeEntries es fs
        → AgreeEntries (entry k v es) (entry k w fs)

  pub data AgreeElements : Elements → Elements → Type 0 where
    nils : AgreeElements nil nil
    conses :
        {xs ys : Elements} {v w : Payload}
        → Agree v w
        → AgreeElements xs ys
        → AgreeElements (cons v xs) (cons w ys)

mutual
  unfolding mask_payload mask_entries mask_elements

  mask-Agree : {a b : Payload} → Agree a b → mask_payload a ≡ mask_payload b
  mask-Agree (dicts h) = ap dict (mask-AgreeEntries h)
  mask-Agree (seqs h) = ap seq (mask-AgreeElements h)
  mask-Agree (leaves v) = refl

  mask-AgreeEntries : {es fs : Entries} → AgreeEntries es fs → mask_entries es ≡ mask_entries fs
  mask-AgreeEntries ends = refl
  mask-AgreeEntries (secret k v w m h) = rw (m, mask-AgreeEntries h)
  mask-AgreeEntries (plain k p h) = rw (mask-Agree p, mask-AgreeEntries h)

  mask-AgreeElements :
      {xs ys : Elements} → AgreeElements xs ys → mask_elements xs ≡ mask_elements ys
  mask-AgreeElements nils = refl
  mask-AgreeElements (conses p h) = rw (mask-Agree p, mask-AgreeElements h)

-- Two payloads that differ only in the values under masked keys, at every depth that maps and []any
-- reach, are masked alike.
pub mask_payload-Agree : {a b : Payload} → Agree a b → mask_payload a ≡ mask_payload b
mask_payload-Agree h = mask-Agree h

-- The entries of a payload under masked keys are redacted.
unfoldable mutual
  pub IsMasked : Payload → Type 0
  IsMasked (dict es) = IsMaskedEntries es
  IsMasked (seq xs) = IsMaskedElements xs
  IsMasked (leaf v) = Unit

  pub IsMaskedEntries : Entries → Type 0
  IsMaskedEntries end = Unit
  IsMaskedEntries (entry k v es) =
      (is_masked_key k ≡ true → v ≡ redacted) × IsMasked v × IsMaskedEntries es

  pub IsMaskedElements : Elements → Type 0
  IsMaskedElements nil = Unit
  IsMaskedElements (cons v xs) = IsMasked v × IsMaskedElements xs

if-IsMasked : (b : Bool) (v : Payload) → IsMasked v → IsMasked (if b then redacted else v)
unfolding IsMasked
if-IsMasked true v h = tt
if-IsMasked false v h = h

mutual
  unfolding mask_payload mask_entries mask_elements IsMasked IsMaskedEntries IsMaskedElements

  payload_hidden : (v : Payload) → IsMasked (mask_payload v)
  payload_hidden (dict es) = entries_hidden es
  payload_hidden (seq xs) = elements_hidden xs
  payload_hidden (leaf v) = tt

  entries_hidden : (es : Entries) → IsMaskedEntries (mask_entries es)
  entries_hidden end = tt
  entries_hidden (entry k v es) =
      (λ e. rw e, if-IsMasked (is_masked_key k) _ (payload_hidden v), entries_hidden es)

  elements_hidden : (xs : Elements) → IsMaskedElements (mask_elements xs)
  elements_hidden nil = tt
  elements_hidden (cons v xs) = (payload_hidden v, elements_hidden xs)

-- In what maskPayload returns, every entry under a masked key, at every depth that maps and []any
-- reach, holds the text REDACTED.
pub mask_payload-IsMasked : (v : Payload) → IsMasked (mask_payload v)
mask_payload-IsMasked v = payload_hidden v

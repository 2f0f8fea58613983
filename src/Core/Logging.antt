-- ===== src/Core/Logging.antt =====
-- What exec writes to the log does not depend on the password of the credential.
use go_adpwsh.Prelude.{
  String, ◌≡◌, refl, true, some, str_eq, eq_iff, Bool-cases, inl, inr, subst, sym,
}
use go_adpwsh.Core.Mask.{
  Payload, dict, seq, leaf, Entries, end, entry, Elements, nil, cons, put, is_masked_key,
  mask_payload,
}
use go_adpwsh.Core.Secrets.{
  Agree, AgreeEntries, AgreeElements, dicts, seqs, leaves, secret, plain, ends, nils, conses,
  mask_payload-Agree,
}
use go_adpwsh.Core.Exec.{Core, Credential, credential_payload, named_payload, full_payload}

mutual
  refl_payload : (v : Payload) → Agree v v
  refl_payload (dict es) = dicts (refl_entries es)
  refl_payload (seq xs) = seqs (refl_elements xs)
  refl_payload (leaf v) = leaves v

  refl_entries : (es : Entries) → AgreeEntries es es
  refl_entries end = ends
  refl_entries (entry k v es) = plain k (refl_payload v) (refl_entries es)

  refl_elements : (xs : Elements) → AgreeElements xs xs
  refl_elements nil = nils
  refl_elements (cons v xs) = conses (refl_payload v) (refl_elements xs)

put-AgreeEntries :
    (k : String) (v w : Payload) (es : Entries)
    → is_masked_key k ≡ true
    → AgreeEntries (put k v es) (put k w es)
unfolding put
put-AgreeEntries k v w end m = secret k v w m ends
put-AgreeEntries k v w (entry j u es) m = elim (Bool-cases (str_eq j k)) [
  | inl same ↦ rw same (
      secret j v w (subst (λ i. is_masked_key i ≡ true) (sym ((eq_iff j k).0 same)) m)
        (refl_entries es))
  | inr other ↦ rw other (plain j (refl_payload u) (put-AgreeEntries k v w es m))
]

-- Two clients that differ only in their credential, its user name and password, log the same payload
-- for an operation.
pub mask_payload-full_payload :
    (c : Core) (x y : Credential) (op : String) (payload : Entries)
    → mask_payload (dict (full_payload (record c { credential = some x }) op payload))
      ≡ mask_payload (dict (full_payload (record c { credential = some y }) op payload))
unfolding full_payload is_masked_key
mask_payload-full_payload c x y op payload = mask_payload-Agree (
    dicts (
      put-AgreeEntries "credential" (credential_payload x) (credential_payload y)
        (named_payload c.server op payload) refl))

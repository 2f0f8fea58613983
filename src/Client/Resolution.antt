-- ===== src/Client/Resolution.antt =====
-- What SchemaClient.Resolve answers.
use go_adpwsh.Prelude.{
  ◌≡◌, refl, sym, ap, ◌∙◌, ◌⊎◌, inl, inr, String, true, none, some, List, [], ◌∷◌, Option-cases,
  List-cases,
}
use go_adpwsh.Core.Errors.{Result, ok, err, panic}
use go_adpwsh.Core.Exec.{Platform, Core, Session}
use go_adpwsh.Client.Schema.{
  SchemaRef, Names, Table, lookup_ref, well_known_guid, misses, known, resolved_guid,
  write_resolved, ask, answer, resolve,
}
use go_adpwsh.Client.Tables.{
  has_ref, lookup_ref-well_known, write_resolved-others, write_resolved-lookup, misses-ne-nil,
}

module _ (p : Platform) (names : Names) (c : Core) (refs : List SchemaRef) (s : Session) where
  ok-inj : {a b : Table} → ok a ≡ ok b → a ≡ b
  ok-inj h = ap (λ r. elim r [ ok x ↦ x | err e ↦ [] | panic ↦ [] ]) h

  reply-inj : {a b : List (String × String)} → ok a ≡ ok b → a ≡ b
  reply-inj h = ap (λ r. elim r [ ok x ↦ x | err e ↦ [] | panic ↦ [] ]) h

  answer-ok :
      (r : Result (List (String × String))) (out : Table)
      → answer refs r ≡ ok out
      → (resolved : List (String × String)) × (r ≡ ok resolved)
        × (out ≡ write_resolved resolved (misses refs) (known refs []))
  answer-ok (ok resolved) out h = (resolved, refl, sym (ok-inj h))
  answer-ok (err e) out h = cc
  answer-ok panic out h = cc

  -- Where every name is well known, Resolve answers all of them and calls no transport.
  resolve-offline :
      (ref : SchemaRef) (guid : String)
      → misses refs ≡ []
      → has_ref ref refs ≡ true
      → well_known_guid ref ≡ some guid
      → (resolve p names c refs s ≡ (ok (known refs []), s))
        × (lookup_ref ref (known refs []) ≡ some guid)
  unfolding resolve
  resolve-offline ref guid all h w =
      (rw (all, resolve), lookup_ref-well_known ref guid refs [] w (inl h))

  -- The answer for a ref: its GUID in the table of well-known names, or, if it is
  -- not there, what the reply of the one round trip says of its name.
  abbrev pub Answers : SchemaRef → Table → Type 0
  Answers ref out =
      ((guid : String) × (well_known_guid ref ≡ some guid) × (lookup_ref ref out ≡ some guid))
      ⊎ ((well_known_guid ref ≡ none)
          × ((resolved : List (String × String)) × ((ask p names c (misses refs) s).0 ≡ ok resolved)
              × (lookup_ref ref out ≡ some (resolved_guid ref.name resolved))))

  asked :
      (ref : SchemaRef) (resolved : List (String × String)) (out : Table)
      → has_ref ref refs ≡ true
      → (ask p names c (misses refs) s).0 ≡ ok resolved
      → out ≡ write_resolved resolved (misses refs) (known refs [])
      → Answers ref out
  asked ref resolved out h reply written = elim (Option-cases (well_known_guid ref)) [
    | inr (guid, it) ↦ inl (
      guid,
      it,
      ap (lookup_ref ref) written
          ∙ write_resolved-others resolved ref guid refs (known refs []) it
              (lookup_ref-well_known ref guid refs [] it (inl h)),
    )
    | inl missing ↦ inr (
      missing,
      (
        resolved,
        reply,
        ap (lookup_ref ref) written
            ∙ write_resolved-lookup resolved ref refs (known refs []) missing (inl h),
      ),
    )
  ]

  offline :
      (ref : SchemaRef) (out : Table)
      → misses refs ≡ []
      → has_ref ref refs ≡ true
      → (resolve p names c refs s).0 ≡ ok out
      → Answers ref out
  offline ref out all h done = elim (Option-cases (well_known_guid ref)) [
    | inl missing ↦ elim (misses-ne-nil ref refs missing h all) [ ]
    | inr (guid, it) ↦
        let (same, found) = resolve-offline ref guid all h it in
        inl (guid, it, ap (lookup_ref ref) (sym (ok-inj (sym (ap (λ r. r.0) same) ∙ done))) ∙ found)
  ]

  resolve-answer :
      (m : SchemaRef) (ms : List SchemaRef)
      → misses refs ≡ m ∷ ms
      → (resolve p names c refs s).0 ≡ answer refs (ask p names c (misses refs) s).0
  unfolding resolve
  resolve-answer m ms e = rw (e, resolve)

  -- A Resolve that succeeds has an answer for every ref that it was asked for: its GUID in the table of
  -- well-known names, or, if it is not there, what the reply of the one round trip, which asks for
  -- the names that are not in the table, says of its name.
  pub resolve-Answers :
      (ref : SchemaRef) (out : Table)
      → has_ref ref refs ≡ true
      → (resolve p names c refs s).0 ≡ ok out
      → Answers ref out
  resolve-Answers ref out h done = elim (List-cases (misses refs)) [
    | inl all ↦ offline ref out all h done
    | inr (m, ms, some_miss) ↦
        let (resolved, reply, written) =
          answer-ok (ask p names c (misses refs) s).0 out
            (sym (resolve-answer m ms some_miss) ∙ done) in
        asked ref resolved out h reply written
  ]

  -- Names that are not well known are told apart by their text alone: of two refs of different kinds
  -- but the same name, one gets the GUID of the other.
  pub resolve-same_name :
      (a b : SchemaRef) (out : Table)
      → has_ref a refs ≡ true
      → has_ref b refs ≡ true
      → well_known_guid a ≡ none
      → well_known_guid b ≡ none
      → a.name ≡ b.name
      → (resolve p names c refs s).0 ≡ ok out
      → lookup_ref a out ≡ lookup_ref b out
  resolve-same_name a b out ha hb wa wb same done = elim (resolve-Answers a out ha done) [
    | inl (g, known_a, la) ↦ cc
    | inr (ma, (ra, reply_a, la)) ↦ elim (resolve-Answers b out hb done) [
      | inl (g, known_b, lb) ↦ cc
      | inr (mb, (rb, reply_b, lb)) ↦
          let replies : ra ≡ rb = reply-inj (sym reply_a ∙ reply_b) in rw (la, lb, replies, same)
    ]
  ]

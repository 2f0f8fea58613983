-- ===== src/Client/Objects/Searches.antt =====
-- What Search returns, next to what the directory has.
use go_adpwsh.Prelude.{
  ℕ, zero, suc, ◌+◌, ◌≤◌, ◌<◌, ◌≡◌, ◌↔◌, inl, inr, refl, ap, String, Bool, Option, some, List, [],
  ◌∷◌, ltb, ltb→lt, le_of_ltb, ltb_of_le, lt→ltb, length, take, arith, Bool-cases,
}
use go_adpwsh.Prelude.Json.{pos, num}
use go_adpwsh.Core.Errors.{too_many_results, error_of, ok, err, too_many}
use go_adpwsh.Core.Mask.{Payload, leaf, Entries, get}
use go_adpwsh.Core.Exec.{Platform, Core, Session}
use go_adpwsh.Client.Objects.Shape.{valid, Query, Adcore, query_payload}
use go_adpwsh.Client.Objects.Access.{Resource, operation, model_all, within_limit, ask, find}

-- The number of rows that a payload asks for.
abbrev limit_of : Option Payload → ℕ
limit_of (some (leaf (num (pos n)))) = n
limit_of _ = 0

abbrev pub requested : Entries → ℕ
requested payload = limit_of (get "sizeLimit" payload)

-- The objects are the models of the replies, one by one.
abbrev pub Models : {J A : Type 0} → Resource J A → List J → List A → Type 0
Models r [] [] = Unit
Models r (j ∷ js) (o ∷ os) = (r.model j ≡ valid o) × Models r js os
Models r [] (o ∷ os) = ◌≡◌ {A = Bool} Bool.true Bool.false
Models r (j ∷ js) [] = ◌≡◌ {A = Bool} Bool.true Bool.false

take-all : {A : Type 0} (n : ℕ) (xs : List A) → length xs ≤ n → take n xs ≡ xs
take-all zero [] h = refl
take-all zero (x ∷ xs) h = ground arith
take-all (suc n) [] h = refl
take-all (suc n) (x ∷ xs) h = ap (◌∷◌ x) (take-all n xs (omega arith))

length-take : {A : Type 0} (n : ℕ) (xs : List A) → n ≤ length xs → length (take n xs) ≡ n
length-take zero xs h = refl
length-take (suc n) [] h = omega arith
length-take (suc n) (x ∷ xs) h = omega (arith, length-take n xs (omega arith))

module _ {J A : Type 0} (p : Platform) (a : Adcore) (r : Resource J A) where
  Models-model_all :
      (op : String) (js : List J) (os : List A) → model_all p a r op js ≡ ok os → Models r js os
  unfolding model_all
  Models-model_all op [] [] h = tt
  Models-model_all op [] (o ∷ os) h = cc
  Models-model_all op (j ∷ js) [] h = ground arith
  Models-model_all op (j ∷ js) (o ∷ os) h = ground (arith, Models-model_all op js os)

  model_all_of_Models :
      (op : String) (js : List J) (os : List A) → Models r js os → model_all p a r op js ≡ ok os
  unfolding model_all
  model_all_of_Models op [] [] h = refl
  model_all_of_Models op [] (o ∷ os) h = cc
  model_all_of_Models op (j ∷ js) [] h = cc
  model_all_of_Models op (j ∷ js) (o ∷ os) (now, later) =
      rw (now, model_all_of_Models op js os later, model_all) refl

  within_limit-over :
      (n : ℕ) (js : List J)
      → n < length js
      → within_limit p a r n (ok (take (n + 1) js))
        ≡ err (error_of too_many_results (operation p a r ".Search") (too_many n))
  unfolding within_limit
  within_limit-over n js over =
      rw
        (
          lt→ltb n (length (take (n + 1) js)) (omega (arith, length-take (n + 1) js (omega arith))),
          within_limit,
        )
        refl

  within_limit-within :
      (n : ℕ) (js : List J)
      → length js ≤ n
      → within_limit p a r n (ok (take (n + 1) js)) ≡ model_all p a r (operation p a r ".Search") js
  unfolding within_limit
  within_limit-within n js within =
      rw (take-all (n + 1) js (omega (arith, within)), ltb_of_le n (length js) within, within_limit)
        refl

  -- If the directory answers a search with the matches, in their order, as many as the request asks
  -- for, then Search returns objects exactly if the matches are not more than the size limit and
  -- each has a model, and then it returns the models of all the matches, in their order: it never
  -- leaves out a match.
  pub find_complete :
      (c : Core) (q : Query) (s : Session) (matches : List J) (os : List A)
      → (ask p a r c (a.with_defaults q c.dnc) s).0
        ≡ ok (take (requested (query_payload (a.with_defaults q c.dnc) r.project)) matches)
      → ((find p a r c q s).0 ≡ ok os)
        ↔ ((length matches ≤ (a.with_defaults q c.dnc).size_limit) × Models r matches os)
  unfolding find within_limit query_payload get
  find_complete c q s matches os answered =
      let n = (a.with_defaults q c.dnc).size_limit in
      elim (Bool-cases (ltb n (length matches))) [
        | inl over ↦
            let cut = ltb→lt n (length matches) over in
            rw (answered, within_limit-over n matches cut) (λ h. cc, λ h. ground (arith, cut, h.0))
        | inr within ↦
            let fits = le_of_ltb n (length matches) within in
            rw (answered, within_limit-within n matches fits)
              (
                λ h. (fits, Models-model_all _ matches os h),
                λ h. model_all_of_Models _ matches os h.1,
              )
      ]

-- ===== src/Fake/Filter/Queries.antt =====
-- transport/fake/filter.go: what matchFilter answers to the text of a query.
use go_adpwsh.Prelude.{ℕ, ◌≡◌, ◌≢◌, Bool, true, false, ◌&&◌, ◌||◌, not, List, [], ◌∷◌, ◌++◌, All}
use go_adpwsh.Prelude.Text.{Bytes}
use go_adpwsh.Fake.Objects.{DirectoryObject}
use go_adpwsh.Fake.Filter.{verdict, Operator, every, any, match_item, item, shape_of}

-- A query: a junction has one part at least.
mutual
  pub data Query : Type 0 where
    all_of : Operator → Query → Queries → Query
    not_of : Query → Query
    one_of : Bytes → Query

  pub data Queries : Type 0 where
    done : Queries
    more : Query → Queries → Queries

abbrev pub operator_byte : Operator → ℕ
operator_byte every = b'&'
operator_byte any = b'|'

abbrev pub parens : Bytes → Bytes
parens s = b'(' ∷ s ++ b')' ∷ []

-- The text of a query, by RFC 4515.
unfoldable mutual
  pub inner : Query → Bytes
  inner (all_of op q qs) = operator_byte op ∷ parens (inner q) ++ print_all qs
  inner (not_of q) = b'!' ∷ parens (inner q)
  inner (one_of s) = s

  pub print_all : Queries → Bytes
  print_all done = []
  print_all (more q qs) = parens (inner q) ++ print_all qs

abbrev pub print : Query → Bytes
print q = parens (inner q)

abbrev pub prints : Queries → List Bytes
prints done = []
prints (more q qs) = print q ∷ prints qs

module _ (test : Bytes → Bool) where
  -- Whether an object has what a query asks for, if the items of the query are tested by `test`.
  unfoldable mutual
    pub holds : Query → Bool
    holds (all_of every q qs) = holds q && holds_all qs
    holds (all_of any q qs) = holds q || holds_any qs
    holds (not_of q) = not (holds q)
    holds (one_of s) = test s

    pub holds_all : Queries → Bool
    holds_all done = true
    holds_all (more q qs) = holds q && holds_all qs

    pub holds_any : Queries → Bool
    holds_any done = false
    holds_any (more q qs) = holds q || holds_any qs

-- A byte that is no parenthesis.
abbrev pub IsPlain : ℕ → Type 0
IsPlain c = (c ≢ b'(') × (c ≢ b')')

-- The items of a query are assertions without parentheses, which matchItem answers with `test`.
unfoldable mutual
  pub IsAnswered : DirectoryObject → (Bytes → Bool) → Query → Type 0
  IsAnswered o test (all_of op q qs) = IsAnswered o test q × AreAnswered o test qs
  IsAnswered o test (not_of q) = IsAnswered o test q
  IsAnswered o test (one_of s) =
      (shape_of s ≡ item s) × All IsPlain s × (match_item o s ≡ verdict (test s))

  pub AreAnswered : DirectoryObject → (Bytes → Bool) → Queries → Type 0
  AreAnswered o test done = Unit
  AreAnswered o test (more q qs) = IsAnswered o test q × AreAnswered o test qs

-- ===== src/Client/Deleted.antt =====
-- core.go, probeDeleted and annotateAlreadyExists: an already-exists error is annotated with the
-- deleted object that still holds the name.
use go_adpwsh.Prelude.{
  ◌≡◌, ◌≢◌, refl, ap, inl, inr, String, Bool, true, false, not, Option, some, List, [], ◌∷◌,
  if◌then◌else◌, Bool-cases, ◌>>=◌,
}
use go_adpwsh.Prelude.Json.{Value, str, lookup_member}
use go_adpwsh.Core.Errors.{Kind, already_exists, Error, Result, ok, err, panic}
use go_adpwsh.Core.Decode.{as_str, as_list, as_members}
use go_adpwsh.Core.Mask.{leaf, end, entry}
use go_adpwsh.Core.Exec.{Platform, Core, Session, M, exec}

pub record DeletedMatch : Type 0 where
  pub guid : String
  pub dn : String
  pub last_known_parent : String

-- One element of `matches`.
abbrev decode_match : Value → Option DeletedMatch
decode_match v = do
  m ← as_members v
  guid ← as_str (lookup_member "objectGUID" m)
  dn ← as_str (lookup_member "distinguishedName" m)
  last_known_parent ← as_str (lookup_member "lastKnownParent" m)
  some (record { guid = guid; dn = dn; last_known_parent = last_known_parent })

abbrev pub decode_matches : Value → Option (List DeletedMatch)
decode_matches v = do m ← as_members v; as_list decode_match (lookup_member "matches" m)

-- e.Kind != KindAlreadyExists
abbrev pub is_already_exists : Kind → Bool
is_already_exists already_exists = true
is_already_exists _ = false

module _ (p : Platform) where
  unfoldable pub probe_deleted : Core → String → M (List DeletedMatch)
  unfolding exec
  probe_deleted c filter =
      exec p c decode_matches "deleted_probe"
        (entry "filter" (leaf (str filter)) (entry "searchBase" (leaf (str c.dnc)) end))

  -- The error that annotateAlreadyExists returns for the matches that the probe found.
  abbrev pub annotated : Error → Result (List DeletedMatch) → Error
  annotated e (ok []) = e
  annotated e (ok (m ∷ ms)) = record e { tombstoned = true; target = m.dn }
  annotated e (err _) = e
  annotated e panic = e

  -- annotateAlreadyExists, on an error that is an *Error
  unfoldable pub annotate_already_exists : Core → Error → String → Session → Error × Session
  unfolding probe_deleted
  annotate_already_exists c e filter s =
      if not (is_already_exists e.kind)
      then (e, s)
      else (annotated e (probe_deleted c filter s).0, (probe_deleted c filter s).1)

  eq_of_is_already_exists : (k : Kind) → is_already_exists k ≡ true → k ≡ already_exists
  eq_of_is_already_exists already_exists h = refl
  eq_of_is_already_exists _ h = cc

  -- The answer of the directory to the search for deleted objects that the filter describes, below
  -- the naming context of the domain.
  abbrev pub probed : Core → String → M (List DeletedMatch)
  probed c filter =
      exec p c decode_matches "deleted_probe"
        (entry "filter" (leaf (str filter)) (entry "searchBase" (leaf (str c.dnc)) end))

  -- What becomes of an error, by its kind and the answer to the search.
  pub data Annotates (c : Core) (e : Error) (filter : String) (s : Session)
      : Error × Session → Type 0 where
    other_kind : e.kind ≢ already_exists → Annotates c e filter s (e, s)
    marked :
        (m : DeletedMatch) (ms : List DeletedMatch)
        → e.kind ≡ already_exists
        → (probed c filter s).0 ≡ ok (m ∷ ms)
        → Annotates c e filter s
            (record e { tombstoned = true; target = m.dn }, (probed c filter s).1)
    none_found :
        e.kind ≡ already_exists
        → (probed c filter s).0 ≡ ok []
        → Annotates c e filter s (e, (probed c filter s).1)
    probe_failed :
        e.kind ≡ already_exists
        → ((ms : List DeletedMatch) → (probed c filter s).0 ≢ ok ms)
        → Annotates c e filter s (e, (probed c filter s).1)

  probed-Annotates :
      (c : Core) (e : Error) (filter : String) (s : Session) (r : Result (List DeletedMatch))
      → e.kind ≡ already_exists
      → (probed c filter s).0 ≡ r
      → Annotates c e filter s (annotated e r, (probed c filter s).1)
  probed-Annotates c e filter s (ok []) k h = none_found k h
  probed-Annotates c e filter s (ok (m ∷ ms)) k h = marked m ms k h
  probed-Annotates c e filter s (err f) k h = probe_failed k (λ ms g. cc)
  probed-Annotates c e filter s panic k h = probe_failed k (λ ms g. cc)

  -- annotateAlreadyExists leaves an error of another kind as it is, without a call. For one that says
  -- that the object exists it searches the deleted objects with the filter: if that finds some, the
  -- error is marked as a tombstone with the distinguished name of the first, and nothing else of it
  -- changes; if it finds none or fails, the error stays as it is.
  pub annotate_already_exists-Annotates :
      (c : Core) (e : Error) (filter : String) (s : Session)
      → Annotates c e filter s (annotate_already_exists c e filter s)
  unfolding annotate_already_exists probe_deleted
  annotate_already_exists-Annotates c e filter s = elim (Bool-cases (is_already_exists e.kind)) [
    | inr another ↦
        rw (another, annotate_already_exists)
          (other_kind (λ same. cc (ap is_already_exists same, another)))
    | inl exists ↦
        rw (exists, annotate_already_exists)
          (probed-Annotates c e filter s (probed c filter s).0
            (eq_of_is_already_exists e.kind exists) refl)
  ]

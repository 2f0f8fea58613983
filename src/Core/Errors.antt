-- ===== src/Core/Errors.antt =====
-- errors.go, and the error vocabulary that alias.go re-exports from go-adcore: `Kind`, `Error`.
-- What go-adcore implements is a parameter: `classify_code` stands for adcore.ClassifyCode.
use go_adpwsh.Prelude.{
  ℕ, suc, ◌+◌, String, Bool, false, Option, none, some, List, [], ◌∷◌, ◌==◌, if◌then◌else◌, drop,
}
use go_adpwsh.Prelude.Text.{Bytes, codes, bytes_eq}
use go_adpwsh.Prelude.Json.{ℤ, pos}

pub data Kind : Type 0 where
  unknown not_found already_exists denied constraint password referral transient : Kind
  transport invalid_attribute schema replication too_many_results unsupported : Kind

-- The wrapped `Err` of an error, one constructor for each message that the sources build.
pub data Cause : Type 0 where
  nothing : Cause
  exited : ℤ → Bytes → Cause
  no_envelope : Bytes → Bytes → Cause
  bad_envelope : Bytes → Cause
  no_detail : Cause
  bad_payload : Cause
  bad_data : Cause
  no_script : Cause
  context_done : Cause
  message : String → Cause
  pending : List String → Cause
  too_many : ℕ → Cause
  conflict : Bytes → List String → Cause
  children : ℤ → Cause

pub record Error : Type 0 where
  pub kind : Kind
  pub op : String
  pub identity : String
  pub exception_type : String
  pub error_code : ℤ
  pub server_message : String
  pub fqid : String
  pub target : String
  pub tombstoned : Bool
  pub cause : Cause

-- &Error{Kind: kind, Op: op, Err: cause}
abbrev pub error_of : Kind → String → Cause → Error
error_of kind op cause = record {
  kind = kind;
  op = op;
  identity = "";
  exception_type = "";
  error_code = pos 0;
  server_message = "";
  fqid = "";
  target = "";
  tombstoned = false;
  cause = cause;
}

-- A Go call that returns a value or an error, or panics.
pub data Result {ℓ} (A : Type ℓ) : Type ℓ where
  ok : A → Result A
  err : Error → Result A
  panic : Result A

-- strings.LastIndexByte(full, '.')
unfoldable pub last_dot : Bytes → Option ℕ
last_dot [] = none
last_dot (c ∷ s) = elim (last_dot s) [
  | some i ↦ some (suc i)
  | none ↦ if c == b'.' then some 0 else none
]

unfoldable pub short_type_name : Bytes → Bytes
unfolding last_dot
short_type_name full = elim (last_dot full) [ some i ↦ drop (i + 1) full | none ↦ full ]

abbrev pub class_by_type : List (String × Kind)
class_by_type =
    ("ADIdentityNotFoundException", not_found)
    ∷ ("ADIdentityResolutionException", not_found)
    ∷ ("ADIdentityAlreadyExistsException", already_exists)
    ∷ ("ADMultipleMatchingIdentitiesException", constraint)
    ∷ ("ADIllegalModifyOperationException", constraint)
    ∷ ("ADInvalidOperationException", constraint)
    ∷ ("ADFilterParsingException", constraint)
    ∷ ("ADPasswordException", password)
    ∷ ("ADInvalidPasswordException", password)
    ∷ ("ADPasswordComplexityException", password)
    ∷ ("ADServerDownException", transient)
    ∷ ("ADReferralException", referral)
    ∷ ("ADException", unknown)
    ∷ ("ADCustomException", unknown)
    ∷ ("ADPipelineException", unknown)
    ∷ ("ADRecordException", unknown)
    ∷ ("ADSystemException", unknown)
    ∷ ("UnauthorizedAccessException", denied)
    ∷ ("ItemNotFoundException", not_found)
    ∷ ("LDAPException", unknown)
    ∷ []

unfoldable pub lookup_kind : Bytes → List (String × Kind) → Option Kind
lookup_kind name [] = none
lookup_kind name ((n, k) ∷ t) = if bytes_eq (codes n) name then some k else lookup_kind name t

-- `if k, ok := ...; ok { return k }`, and what follows it
abbrev pub or_kind : Option Kind → Kind → Kind
or_kind (some k) rest = k
or_kind none rest = rest

-- Classify, with adcore.ClassifyCode as its first argument.
unfoldable pub classify : (ℤ → Option Kind) → String → ℤ → Kind
unfolding short_type_name lookup_kind
classify classify_code exception_type code =
    or_kind (classify_code code)
      (or_kind (lookup_kind (short_type_name (codes exception_type)) class_by_type) unknown)

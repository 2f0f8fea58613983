-- ===== src/Winrm/Literal.antt =====
-- How PowerShell reads the payload that buildWrapper hands to a constrained endpoint.
use go_adpwsh.Prelude.{
  ℕ, ◌==◌, ==_iff, ◌≡◌, ◌≢◌, refl, sym, ap, ◌∙◌, Bool, true, false, Option, none, some, [], ◌∷◌,
  ◌++◌, All, append_assoc, if◌then◌else◌, arith, Bool-cases, inl, inr,
}
use go_adpwsh.Prelude.Text.{Bytes, codes}
use go_adpwsh.Winrm.Wrap.{double_quotes, build_wrapper}

abbrev pub push : ℕ → Option (Bytes × Bytes) → Option (Bytes × Bytes)
push c none = none
push c (some (text, rest)) = some (c ∷ text, rest)

-- PowerShell's quoting rules: what it takes as a single quote is a parameter.
module _ (is_quote : ℕ → Bool) where
  -- A single-quoted literal behind its opening quote: its value and what follows it. Two quotes
  -- stand for the second of them, and one quote ends the literal.
  unfoldable pub read_literal : Bytes → Option (Bytes × Bytes)
  read_literal [] = none
  read_literal (c ∷ []) = if is_quote c then some ([], []) else none
  read_literal (c ∷ d ∷ s) =
      let pair = read_literal s in
      let rest = read_literal (d ∷ s) in
      if is_quote c then (if is_quote d then push d pair else some ([], d ∷ s)) else push c rest

  module _ (apostrophe : is_quote b'\'' ≡ true) where
    read_literal-pair : (s : Bytes) → read_literal (b'\'' ∷ b'\'' ∷ s) ≡ push b'\'' (read_literal s)
    unfolding read_literal
    read_literal-pair s = rw apostrophe refl

    read_literal-end :
        (c d : ℕ) (s : Bytes)
        → is_quote c ≡ true
        → is_quote d ≡ false
        → read_literal (c ∷ d ∷ s) ≡ some ([], d ∷ s)
    unfolding read_literal
    read_literal-end c d s ends plain = rw (ends, plain) refl

    read_literal-plain :
        (c d : ℕ) (s : Bytes)
        → is_quote c ≡ false
        → read_literal (c ∷ d ∷ s) ≡ push c (read_literal (d ∷ s))
    unfolding read_literal
    read_literal-plain c d s plain = rw plain refl

    -- A code point that is no quote is in front of a text that is not empty.
    read_literal-next :
        (c : ℕ) (s t : Bytes) (d : ℕ)
        → is_quote c ≡ false
        → read_literal (c ∷ s ++ d ∷ t) ≡ push c (read_literal (s ++ d ∷ t))
    read_literal-next c [] t d plain = read_literal-plain c d t plain
    read_literal-next c (e ∷ s) t d plain = read_literal-plain c e (s ++ d ∷ t) plain

    plain_of : (c : ℕ) → (is_quote c ≡ true → c ≡ b'\'') → (c == b'\'') ≡ false → is_quote c ≡ false
    plain_of c only other = elim (Bool-cases (is_quote c)) [
      | inl ends ↦ let same = (==_iff c b'\'').1 (only ends) in cc
      | inr plain ↦ plain
    ]

    read_literal-double_quotes :
        (payload : Bytes) (d : ℕ) (t : Bytes)
        → All (λ c. is_quote c ≡ true → c ≡ b'\'') payload
        → is_quote d ≡ false
        → read_literal (double_quotes payload ++ b'\'' ∷ d ∷ t) ≡ some (payload, d ∷ t)
    unfolding double_quotes
    read_literal-double_quotes [] d t only plain = read_literal-end b'\'' d t apostrophe plain
    read_literal-double_quotes (c ∷ s) d t (now, later) plain = elim (Bool-cases (c == b'\'')) [
      | inl same ↦
          rw
            (
              same,
              read_literal-pair (double_quotes s ++ b'\'' ∷ d ∷ t),
              read_literal-double_quotes s d t later plain,
            )
            (ap (λ n. some (n ∷ s, d ∷ t)) (sym ((==_iff c b'\'').0 same)))
      | inr other ↦
          rw
            (
              other,
              read_literal-next c (double_quotes s) (d ∷ t) b'\'' (plain_of c now other),
              read_literal-double_quotes s d t later plain,
            )
            refl
    ]

    -- The literal that buildWrapper puts in front of the script of a constrained endpoint: whatever
    -- the payload is, as long as PowerShell takes no other code point of it as a single quote than
    -- the apostrophe, the value of the literal is the payload, and behind it comes the script.
    pub build_wrapper-read_literal :
        (base64 : Bytes → Bytes) (script payload : Bytes)
        → is_quote b'\n' ≡ false
        → All (λ c. is_quote c ≡ true → c ≡ b'\'') payload
        → (literal : Bytes) × (build_wrapper base64 script payload true
            ≡ codes "$__adPayload = '" ++ literal)
          × (read_literal literal ≡ some (payload, b'\n' ∷ script))
    unfolding build_wrapper
    build_wrapper-read_literal base64 script payload plain only = (
      double_quotes payload ++ b'\'' ∷ b'\n' ∷ script,
      refl,
      read_literal-double_quotes payload b'\n' script only plain,
    )

    double_quotes-append :
        (s t : Bytes) → double_quotes (s ++ t) ≡ double_quotes s ++ double_quotes t
    unfolding double_quotes
    double_quotes-append [] t = refl
    double_quotes-append (c ∷ s) t = elim (Bool-cases (c == b'\'')) [
      | inl same ↦ rw (same, double_quotes-append s t) refl
      | inr other ↦ rw (other, double_quotes-append s t) refl
    ]

    apart_of : (c : ℕ) → is_quote c ≡ false → (c == b'\'') ≡ false
    apart_of c plain = elim (Bool-cases (c == b'\'')) [
      | inl same ↦ let at = ap is_quote ((==_iff c b'\'').0 same) in cc
      | inr other ↦ other
    ]

    double_quotes-split :
        (before after tail : Bytes) (q d : ℕ)
        → (q == b'\'') ≡ false
        → (d == b'\'') ≡ false
        → double_quotes (before ++ q ∷ d ∷ after) ++ tail
          ≡ double_quotes before ++ (q ∷ d ∷ (double_quotes after ++ tail))
    unfolding double_quotes
    double_quotes-split before after tail q d other apart =
        ap (λ b. b ++ tail) (double_quotes-append before (q ∷ d ∷ after))
        ∙ (append_assoc (double_quotes before) (double_quotes (q ∷ d ∷ after)) tail
            ∙ rw (other, apart) refl)

    read_literal-early :
        (s t : Bytes) (q d : ℕ)
        → All (λ c. is_quote c ≡ false) s
        → is_quote q ≡ true
        → is_quote d ≡ false
        → read_literal (double_quotes s ++ q ∷ d ∷ t) ≡ some (s, d ∷ t)
    unfolding double_quotes
    read_literal-early [] t q d none' ends plain = read_literal-end q d t ends plain
    read_literal-early (c ∷ s) t q d (now, later) ends plain =
        rw
          (
            apart_of c now,
            read_literal-next c (double_quotes s) (d ∷ t) q now,
            read_literal-early s t q d later ends plain,
          )
          refl

    -- A payload that has, behind a text without quotes, another code point that PowerShell takes as
    -- a single quote, and not another one right behind it: the literal of buildWrapper ends there, and
    -- the rest of the payload is read as code.
    pub build_wrapper-early :
        (base64 : Bytes → Bytes) (script before after : Bytes) (q d : ℕ)
        → All (λ c. is_quote c ≡ false) before
        → is_quote q ≡ true
        → q ≢ b'\''
        → is_quote d ≡ false
        → (literal : Bytes) × (build_wrapper base64 script (before ++ q ∷ d ∷ after) true
            ≡ codes "$__adPayload = '" ++ literal)
          × (read_literal literal
              ≡ some (before, d ∷ double_quotes after ++ (b'\'' ∷ b'\n' ∷ script)))
    unfolding build_wrapper double_quotes
    build_wrapper-early base64 script before after q d none' ends smart plain = (
      double_quotes (before ++ q ∷ d ∷ after) ++ b'\'' ∷ b'\n' ∷ script,
      refl,
      rw
          (double_quotes-split before after (b'\'' ∷ b'\n' ∷ script) q d (ground (arith, smart))
            (apart_of d plain))
          (read_literal-early before (double_quotes after ++ b'\'' ∷ b'\n' ∷ script) q d none' ends
            plain),
    )

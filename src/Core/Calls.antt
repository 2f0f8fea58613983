-- ===== src/Core/Calls.antt =====
-- What one exec does: it is refused before any call, or its retry loop runs.
use go_adpwsh.Prelude.{
  ℕ, suc, ◌≡◌, refl, sym, ap, ◌∙◌, subst, ◌⊎◌, inl, inr, String, ◌&&◌, Option, none, some, ◌∷◌,
  Option-cases, if◌then◌else◌,
}
use go_adpwsh.Prelude.Text.{Bytes}
use go_adpwsh.Prelude.Json.{Value}
use go_adpwsh.Core.Errors.{unknown, error_of, Result, err, bad_payload, no_script}
use go_adpwsh.Core.Mask.{dict, Entries, mask_payload}
use go_adpwsh.Core.Exec.{
  Platform, Core, Session, Call, M, exec, attempts, full_payload, is_acl_op, acl_clm_variant,
  dialect_name,
}
use go_adpwsh.Core.Retry.{Outcome, attempts_lem}
use go_adpwsh.Script.Compose.{script_for}

module _ {ℓ} {A : Type ℓ} (p : Platform) (c : Core) (decode : Value → Option A) (op : String)
    (payload : Entries) (s : Session) where
  -- The operation whose script is run.
  abbrev pub script_op : String
  script_op = if is_acl_op op && p.constrained then acl_clm_variant op else op

  -- The call that exec makes for the marshalled payload and the script.
  abbrev pub call_of : Bytes → Bytes → Call
  call_of body script = record { command = p.encode_command script; body = body }

  -- Nothing was called or logged: the payload cannot be marshalled or there is no script.
  abbrev pub IsRefused : Result A × Session → Type ℓ
  IsRefused out =
      (out.1 ≡ s)
      × ((out.0 ≡ err (error_of unknown op bad_payload))
          ⊎ (out.0 ≡ err (error_of unknown op no_script)))

  -- The loop ran with the marshalled payload and the script of the operation.
  abbrev pub Ran : ℕ → Result A × Session → Type ℓ
  Ran n out =
      (body : Bytes) × (script : Bytes) × (p.marshal (dict (full_payload c op payload)) ≡ some body)
      × (script_for p.files (dialect_name c.dialect) script_op ≡ some script)
      × Outcome p c.retry op (call_of body script) decode n s out

  -- The session in which the loop starts.
  abbrev started : Session
  started = record s { logged = mask_payload (dict (full_payload c op payload)) ∷ s.logged }

  exec-ran :
      (body script : Bytes)
      → p.marshal (dict (full_payload c op payload)) ≡ some body
      → script_for p.files (dialect_name c.dialect) script_op ≡ some script
      → exec p c decode op payload s
        ≡ attempts p c.retry op (call_of body script) decode c.retry.max_attempts 1 none started
  unfolding exec
  exec-ran body script marshalled scripted = rw (marshalled, exec, scripted)

  ran :
      (n : ℕ) (body script : Bytes)
      → c.retry.max_attempts ≡ suc n
      → exec p c decode op payload s
        ≡ attempts p c.retry op (call_of body script) decode c.retry.max_attempts 1 none started
      → Outcome p c.retry op (call_of body script) decode n s (exec p c decode op payload s)
  ran n body script e eq =
      let loop : M A = λ t. attempts p c.retry op (call_of body script) decode (suc n) 1 none t in
      subst (Outcome p c.retry op (call_of body script) decode n s)
        (sym (eq ∙ ap (λ m. attempts p c.retry op (call_of body script) decode m 1 none started) e))
        (attempts_lem p c.retry op (call_of body script) decode n 1 none started)

  -- With at least one attempt configured, exec either is refused, with nothing called or logged, because
  -- the payload cannot be marshalled or the operation has no script in the dialect; or it calls the
  -- transport with the marshalled payload and the script of the operation, at least once, at most
  -- as often as configured, again only after a retryable failure, and returns what the last call
  -- comes to or that the context ended while it waited.
  pub exec_lem :
      (n : ℕ)
      → c.retry.max_attempts ≡ suc n
      → IsRefused (exec p c decode op payload s) ⊎ Ran n (exec p c decode op payload s)
  unfolding exec
  exec_lem n e = elim (Option-cases (p.marshal (dict (full_payload c op payload)))) [
    | inl bad ↦ inl (rw (bad, exec) (refl, inl refl))
    | inr (body, marshalled) ↦
        elim (Option-cases (script_for p.files (dialect_name c.dialect) script_op)) [
          | inl missing ↦ inl (rw (marshalled, exec, missing) (refl, inr refl))
          | inr (script, scripted) ↦ inr (
            body,
            script,
            marshalled,
            scripted,
            ran n body script e (exec-ran body script marshalled scripted),
          )
        ]
  ]

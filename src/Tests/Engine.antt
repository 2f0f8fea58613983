-- ===== src/Tests/Engine.antt =====
-- The engine of the client: errors.go, envelope.go and core.go.
use go_adpwsh.Prelude.{
  ℕ, ◌+◌, ◌-◌, ◌*◌, ◌^◌, ◌≤◌, ◌<◌, ◌≡◌, ◌≢◌, refl, String, Bool, true, false, Option, none, some,
  List, [], ◌∷◌, ◌++◌, arith, ltb, if◌then◌else◌, ◌⊎◌,
}
use go_adpwsh.Prelude.Text.{Bytes, codes, has_prefix, index}
use go_adpwsh.Prelude.Json.{ℤ, pos, Value, null, str}
use go_adpwsh.Core.Errors.{transient, error_of, message, panic}
use go_adpwsh.Core.Envelope.{sentinel_begin, parse_body, parse_envelope}
use go_adpwsh.Core.Framing.{parse_envelope-ne-panic}
use go_adpwsh.Core.Noise.{framed, parse_envelope-framed}
use go_adpwsh.Core.Mask.{Payload, dict, leaf, Entries, end, entry, mask_payload}
use go_adpwsh.Core.Secrets.{
  dicts, ends, secret, IsMasked, mask_payload-Agree, mask_payload-IsMasked,
}
use go_adpwsh.Core.Exec.{attempts, attempt_result, finish, backoff_delay}
use go_adpwsh.Core.Exec.{exec}
use go_adpwsh.Core.Calls.{IsRefused, Ran, exec_lem}
use go_adpwsh.Core.Recovery.{attempts_recover}
use go_adpwsh.Core.Backoff.{backoff_delay-overflow}
use go_adpwsh.Tests.Demo.{
  demo, reply, three_attempts, client, idle_session, a_call, payload, All-has_byte,
}

-- The end marker stands before the begin marker.
parse_envelope-ne-panic_example :
    parse_envelope
      (λ b. none)
      (λ code. none)
      "user_get"
      (record { stdout = b'x' ∷ sentinel_begin; stderr = []; exit_code = pos 0 })
    ≢ panic
parse_envelope-ne-panic_example =
    parse_envelope-ne-panic (λ b. none) (λ code. none) "user_get"
      (record { stdout = b'x' ∷ sentinel_begin; stderr = []; exit_code = pos 0 })

parse_envelope-framed_example :
    parse_envelope
      (λ b. some reply)
      (λ code. none)
      "user_get"
      (record {
        stdout = framed (codes "hi") (codes "{}") (codes "bye");
        stderr = [];
        exit_code = pos 0;
      })
    ≡ parse_body (λ b. some reply) (λ code. none) "user_get" (some (codes "{}"))
unfolding index has_prefix
parse_envelope-framed_example =
    parse_envelope-framed (codes "hi") (codes "{}") (codes "bye")
      (All-has_byte b'<' (codes "hi") refl) (λ b. some reply) (λ code. none) "user_get" [] refl

mask_payload-Agree_example :
    mask_payload (dict (entry "Password" (leaf (str "x")) end))
    ≡ mask_payload (dict (entry "Password" (leaf (str "y")) end))
unfolding go_adpwsh.Core.Mask.is_masked_key
mask_payload-Agree_example =
    mask_payload-Agree (dicts (secret "Password" (leaf (str "x")) (leaf (str "y")) refl ends))

mask_payload-IsMasked_example :
    IsMasked (mask_payload (dict (entry "newPassword" (leaf (str "x")) end)))
mask_payload-IsMasked_example =
    mask_payload-IsMasked (dict (entry "newPassword" (leaf (str "x")) end))

-- The second call succeeds.
attempts_recover_example :
    (attempts demo three_attempts "user_get" a_call (λ v. some v) 3 1 none idle_session).0
    ≡ finish demo (λ v. some v) "user_get" (some payload)
unfolding attempt_result parse_envelope index parse_body go_adpwsh.Prelude.Text.slice
    go_adpwsh.Prelude.Json.lookup_member
attempts_recover_example =
    attempts_recover demo three_attempts "user_get" a_call (λ v. some v) 1 3 1 none idle_session
      (some payload) refl (omega arith) (λ cs. refl)
      ((error_of transient "user_get" (message "server down"), refl, refl), tt) refl

backoff_delay-overflow_example : backoff_delay three_attempts (65 + 1) ≡ 0
backoff_delay-overflow_example = backoff_delay-overflow three_attempts 1

exec_lem_example :
    IsRefused demo client
      (λ v. some v)
      "user_get"
      end
      idle_session
      (exec demo client (λ v. some v) "user_get" end idle_session)
    ⊎ Ran demo client
        (λ v. some v)
        "user_get"
        end
        idle_session
        2
        (exec demo client (λ v. some v) "user_get" end idle_session)
exec_lem_example = exec_lem demo client (λ v. some v) "user_get" end idle_session 2 refl

-- ===== src/Winrm/PreExecution.antt =====
-- What a transient error of the cold transport says about the process on the host.
use go_adpwsh.Prelude.{◌≡◌, refl, Bool, true, false, List, [], ◌∷◌, arith, Option-cases, inl, inr}
use go_adpwsh.Prelude.Text.{Bytes}
use go_adpwsh.Core.Errors.{transient}
use go_adpwsh.Winrm.Cold.{
  Request, create_shell, start_process, send_stdin, end_stdin, Host, Finished, completed, gave_up,
  waited, ended, sent, started, exec_cold, Encodings, run_cold,
}

-- The end of the standard input is among the requests.
abbrev pub is_released : List Request → Bool
is_released [] = false
is_released (end_stdin ∷ seen) = true
is_released (_ ∷ seen) = is_released seen

abbrev pub is_transient : Finished → Bool
is_transient (completed r) = false
is_transient (gave_up e) = elim e.kind [ transient ↦ true | _ ↦ false ]

abbrev pub is_result : Finished → Bool
is_result (completed r) = true
is_result (gave_up e) = false

-- A transient error leaves the process blocked on its input, and a result is of one that was released.
abbrev pub IsHonest : Finished × List Request → Type 0
IsHonest out =
    (is_transient out.0 ≡ true → is_released out.1 ≡ false)
    × (is_result out.0 ≡ true → is_released out.1 ≡ true)

module _ (host : Host) where
  waited-IsHonest : (seen : List Request) → is_released seen ≡ true → IsHonest (waited host seen)
  waited-IsHonest seen released = ground arith

  ended-IsHonest : (seen : List Request) → IsHonest (ended host seen)
  ended-IsHonest seen = elim (Option-cases (host.refuses seen end_stdin)) [
    | inl fine ↦ rw (fine, ended) (waited-IsHonest (end_stdin ∷ seen) refl)
    | inr (m, refused) ↦ rw (refused, ended) (λ h. cc, λ h. cc)
  ]

  sent-IsHonest :
      (stdin : Bytes) (seen : List Request)
      → is_released seen ≡ false
      → IsHonest (sent host stdin seen)
  sent-IsHonest stdin seen blocked = elim (Option-cases (host.refuses seen (send_stdin stdin))) [
    | inl fine ↦ rw (fine, sent) (ended-IsHonest (send_stdin stdin ∷ seen))
    | inr (m, refused) ↦ rw (refused, sent) (λ h. blocked, λ h. cc)
  ]

  started-IsHonest :
      (args : List Bytes) (stdin : Bytes) (seen : List Request)
      → is_released seen ≡ false
      → IsHonest (started host args stdin seen)
  started-IsHonest args stdin seen blocked =
      elim (Option-cases (host.refuses seen (start_process args))) [
        | inl fine ↦ rw (fine, started) (sent-IsHonest stdin (start_process args ∷ seen) blocked)
        | inr (m, refused) ↦ rw (refused, started) (λ h. blocked, λ h. cc)
      ]

  exec_cold-IsHonest :
      (pwsh bootstrap stdin : Bytes) (seen : List Request)
      → is_released seen ≡ false
      → IsHonest (exec_cold host pwsh bootstrap stdin seen)
  unfolding exec_cold
  exec_cold-IsHonest pwsh bootstrap stdin seen blocked =
      elim (Option-cases (host.refuses seen create_shell)) [
        | inl fine ↦ rw (fine, exec_cold) (started-IsHonest _ stdin (create_shell ∷ seen) blocked)
        | inr (m, refused) ↦ rw (refused, exec_cold) (λ h. blocked, λ h. cc)
      ]

  -- If Run of the cold transport ends with a transient error, the kind that the client retries, then
  -- it has not asked the host to end the standard input, so the process, which reads its input to the
  -- end before it runs anything, cannot have run the script; and a result is only returned after
  -- the input was ended. This is for a host that refuses any request at any time.
  pub run_cold-IsHonest :
      (enc : Encodings) (pwsh : Bytes) (busy : Bool) (command payload : Bytes) (seen : List Request)
      → is_released seen ≡ false
      → IsHonest (run_cold enc host pwsh busy command payload seen)
  unfolding run_cold
  run_cold-IsHonest enc pwsh true command payload seen blocked = (λ h. cc, λ h. cc)
  run_cold-IsHonest enc pwsh false command payload seen blocked =
      elim (Option-cases (enc.decode_command command)) [
        | inl bad ↦ rw (bad, run_cold) (λ h. cc, λ h. cc)
        | inr (script, good) ↦ rw (good, run_cold) (exec_cold-IsHonest pwsh _ _ seen blocked)
      ]

-- ===== src/Winrm/Cold.antt =====
-- transport/winrm/cold.go and the exec of coldexec.go: one WinRS shell for each operation. What go-psrp
-- and the host do is a parameter, and so are the encodings.
use go_adpwsh.Prelude.{String, Bool, Option, none, some, List, [], ◌∷◌, if◌then◌else◌, str_eq}
use go_adpwsh.Prelude.Text.{Bytes, codes}
use go_adpwsh.Core.Errors.{transient, transport, Error, error_of, message}
use go_adpwsh.Core.Envelope.{RunResult}
use go_adpwsh.Winrm.Wrap.{wrap_full_payload}

-- What the executor asks of the host; a request is an event whether it succeeds or not.
pub data Request : Type 0 where
  create_shell : Request
  start_process : List Bytes → Request
  send_stdin : Bytes → Request
  end_stdin : Request
  wait_process : Request
  close_shell : Request

-- The host may answer by everything that was asked before, newest first: with an error or none, and
-- with the output of the process.
pub record Host : Type 0 where
  pub refuses : List Request → Request → Option String
  pub output : List Request → RunResult

pub data Finished : Type 0 where
  completed : RunResult → Finished
  gave_up : Error → Finished

-- What follows the wait.
abbrev pub waited : Host → List Request → Finished × List Request
waited host seen = elim (host.refuses seen wait_process) [
  | some m ↦ (gave_up (error_of transport "winrm.cold.wait" (message m)), wait_process ∷ seen)
  | none ↦ (completed (host.output (wait_process ∷ seen)), wait_process ∷ seen)
]

abbrev pub ended : Host → List Request → Finished × List Request
ended host seen = elim (host.refuses seen end_stdin) [
  | some m ↦ (gave_up (error_of transport "winrm.cold.eof" (message m)), end_stdin ∷ seen)
  | none ↦ waited host (end_stdin ∷ seen)
]

abbrev pub sent : Host → Bytes → List Request → Finished × List Request
sent host stdin seen = elim (host.refuses seen (send_stdin stdin)) [
  | some m ↦ (gave_up (error_of transient "winrm.cold.send" (message m)), send_stdin stdin ∷ seen)
  | none ↦ ended host (send_stdin stdin ∷ seen)
]

abbrev pub started : Host → List Bytes → Bytes → List Request → Finished × List Request
started host args stdin seen = elim (host.refuses seen (start_process args)) [
  | some m ↦
      (gave_up (error_of transient "winrm.cold.command" (message m)), start_process args ∷ seen)
  | none ↦ sent host stdin (start_process args ∷ seen)
]

-- winrsColdExecutor.exec; the shell that was created is closed in the end, whatever happens.
unfoldable pub exec_cold : Host → Bytes → Bytes → Bytes → List Request → Finished × List Request
exec_cold host pwsh bootstrap stdin seen = elim (host.refuses seen create_shell) [
  | some m ↦ (gave_up (error_of transient "winrm.cold.create" (message m)), create_shell ∷ seen)
  | none ↦
      let args =
        pwsh
        ∷ codes "-NoProfile"
        ∷ codes "-NonInteractive"
        ∷ codes "-EncodedCommand"
        ∷ bootstrap
        ∷ [] in
      let out = started host args stdin (create_shell ∷ seen) in (out.0, close_shell ∷ out.1)
]

abbrev pub cold_bootstrap : Bytes
cold_bootstrap =
    codes
      "[Console]::OutputEncoding=[System.Text.UTF8Encoding]::new($false); $s=[Console]::In.ReadToEnd(); Invoke-Expression $s"

-- The engine that NewCold chooses.
unfoldable pub cold_engine : String → String
cold_engine path =
    if str_eq path ""
    then "powershell.exe"
    else if str_eq path "pwsh"
    then "powershell.exe"
    else path

-- DecodeCommand, EncodeCommand and base64.
pub record Encodings : Type 0 where
  pub decode_command : Bytes → Option Bytes
  pub encode_command : Bytes → Bytes
  pub base64 : Bytes → Bytes

-- Run, once a slot of the semaphore is taken; `busy` says that the context ended before.
unfoldable pub run_cold :
    Encodings → Host → Bytes → Bool → Bytes → Bytes → List Request → Finished × List Request
unfolding exec_cold wrap_full_payload
run_cold enc host pwsh busy command payload seen =
    if busy
    then (gave_up (error_of transport "winrm.cold.Run" (message "context")), seen)
    else elim (enc.decode_command command) [
      | none ↦ (gave_up (error_of transport "winrm.cold.Run" (message "decode")), seen)
      | some script ↦
          exec_cold host pwsh (enc.encode_command cold_bootstrap)
            (wrap_full_payload enc.base64 script payload) seen
    ]

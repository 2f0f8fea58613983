-- ===== src/Winrm/Wrap.antt =====
-- transport/winrm/wrap.go, and WrapFullPayload of internal/adscript/wrap.go. Base64 is a parameter,
-- and so is what the sources ask of an error of go-psrp. Texts are lists of code points.
use go_adpwsh.Prelude.{
  ℕ, ◌==◌, Bool, true, false, ◌&&◌, ◌||◌, Option, none, some, List, [], ◌∷◌, ◌++◌, if◌then◌else◌,
}
use go_adpwsh.Prelude.Text.{Bytes, codes, has_prefix, index}
use go_adpwsh.Core.Errors.{transient, transport, Error, error_of, message}

abbrev pub preload : Bytes
preload =
    codes
      "try { [System.Reflection.Assembly]::LoadFrom(\"$PSHOME\\System.ServiceModel.NetFramingBase.dll\") | Out-Null } catch {}"

-- WrapFullPayload
unfoldable pub wrap_full_payload : (Bytes → Bytes) → Bytes → Bytes → Bytes
wrap_full_payload base64 script payload =
    codes
      "[Console]::SetIn([System.IO.StringReader]::new([System.Text.Encoding]::UTF8.GetString([System.Convert]::FromBase64String('"
    ++ (base64 payload ++ (codes "'))))\n" ++ (preload ++ (codes "\n" ++ script))))

-- strings.ReplaceAll(s, "'", "''")
unfoldable pub double_quotes : Bytes → Bytes
double_quotes [] = []
double_quotes (c ∷ s) =
    let rest = double_quotes s in if c == b'\'' then b'\'' ∷ b'\'' ∷ rest else c ∷ rest

-- buildWrapper
unfoldable pub build_wrapper : (Bytes → Bytes) → Bytes → Bytes → Bool → Bytes
unfolding double_quotes wrap_full_payload
build_wrapper base64 script payload constrained =
    if constrained
    then codes "$__adPayload = '" ++ (double_quotes payload ++ (codes "'\n" ++ script))
    else wrap_full_payload base64 script payload

-- strings.Join of the printed objects with newlines; no object is the empty text.
unfoldable pub join_objects : List Bytes → Bytes
join_objects [] = []
join_objects (o ∷ []) = o
join_objects (o ∷ os) = o ++ b'\n' ∷ join_objects os

unfoldable pub exit_code : Bool → ℕ
exit_code true = 1
exit_code false = 0

-- An error of Execute: its text, the answers of errors.Is for the three sentinels of go-psrp, and of
-- errors.As for a *wsman.Fault, with its IsShellNotFound.
pub record PsrpError : Type 0 where
  pub text : Bytes
  pub is_queue_full : Bool
  pub is_circuit_open : Bool
  pub is_not_connected : Bool
  pub fault : Option Bool

-- mapExecuteError
unfoldable pub map_execute_error : PsrpError → Error
map_execute_error e =
    if e.is_queue_full || (e.is_circuit_open || e.is_not_connected)
    then error_of transient "Run" (message "execute")
    else error_of transport "Run" (message "execute")

abbrev pub retry_exhausted : Bytes
retry_exhausted = codes "failed to start pipeline after retries due to transport error"

abbrev pub prepare_marker : Bytes
prepare_marker = codes "prepare pipeline: "

-- strings.Contains
unfoldable pub contains : Bytes → Bytes → Bool
unfolding index
contains s sub = elim (index s sub) [ none ↦ false | some i ↦ true ]

-- errors.As(err, &fault) && fault.IsShellNotFound()
abbrev pub is_shell_not_found : Option Bool → Bool
is_shell_not_found none = false
is_shell_not_found (some b) = b

-- isDeadShellFailure; `none` is a nil error.
unfoldable pub is_dead_shell_failure : Option PsrpError → Bool
unfolding contains has_prefix
is_dead_shell_failure none = false
is_dead_shell_failure (some e) =
    contains e.text retry_exhausted
    || is_shell_not_found e.fault && has_prefix e.text prepare_marker

-- ===== src/Tests/Wrapping.antt =====
-- internal/adscript/encode.go and transport/winrm with the single quotes of PowerShell.
use go_adpwsh.Prelude.{
  ℕ, ◌==◌, ◌≡◌, refl, String, Bool, true, false, ◌||◌, Option, none, some, List, [], ◌∷◌, ◌++◌,
  arith,
}
use go_adpwsh.Prelude.Json.{pos}
use go_adpwsh.Prelude.Text.{Bytes, codes}
use go_adpwsh.Script.Encode.{encode_command, decode_command}
use go_adpwsh.Script.Encode.RoundTrip.{decode_command-encode_command}
use go_adpwsh.Winrm.Wrap.{build_wrapper, double_quotes}
use go_adpwsh.Winrm.Literal.{read_literal, build_wrapper-read_literal, build_wrapper-early}
use go_adpwsh.Winrm.Cold.{Host, Request, send_stdin, Encodings, run_cold}
use go_adpwsh.Winrm.PreExecution.{IsHonest, run_cold-IsHonest}

-- The apostrophe and the four typographic single quotes.
abbrev is_quote : ℕ → Bool
is_quote c = c == b'\'' || (c == 0x2018 || (c == 0x2019 || (c == 0x201a || c == 0x201b)))

abbrev none_encoded : Bytes → Bytes
none_encoded b = b

-- a smile, which takes two units of UTF-16
abbrev smile : List ℕ
smile = b'a' ∷ 0x1f600 ∷ []

decode_command-encode_command_example :
    decode_command none_encoded some (encode_command none_encoded some smile) ≡ some smile
decode_command-encode_command_example =
    decode_command-encode_command none_encoded some (λ b. refl) smile
      ((refl, omega arith), ((refl, omega arith), tt))

abbrev quoted : Bytes
quoted = b'O' ∷ b'\'' ∷ []

build_wrapper-read_literal_example :
    (literal : Bytes) × (build_wrapper none_encoded (codes "s") quoted true
      ≡ codes "$__adPayload = '" ++ literal)
    × (read_literal is_quote literal ≡ some (quoted, b'\n' ∷ codes "s"))
build_wrapper-read_literal_example =
    build_wrapper-read_literal is_quote refl none_encoded (codes "s") quoted refl
      (λ h. cc, (λ h. refl, tt))

build_wrapper-early_example :
    (literal : Bytes) × (build_wrapper none_encoded
        (codes "s")
        (codes "O" ++ 0x2019 ∷ b';' ∷ codes "x")
        true
      ≡ codes "$__adPayload = '" ++ literal)
    × (read_literal is_quote literal
        ≡ some (codes "O", b';' ∷ double_quotes (codes "x") ++ (b'\'' ∷ b'\n' ∷ codes "s")))
build_wrapper-early_example =
    build_wrapper-early is_quote refl none_encoded (codes "s") (codes "O") (codes "x") 0x2019 b';'
      (refl, tt) refl (omega arith) refl

-- The host refuses to take the input.
abbrev refuses_input : Request → Option String
refuses_input (send_stdin b) = some "reset"
refuses_input _ = none

abbrev host : Host
host = record {
  refuses = λ seen request. refuses_input request;
  output = λ seen. record { stdout = []; stderr = []; exit_code = pos 0 };
}

abbrev plain : Encodings
plain = record { decode_command = some; encode_command = none_encoded; base64 = none_encoded }

run_cold-IsHonest_example :
    IsHonest (run_cold plain host (codes "powershell.exe") false (codes "s") (codes "{}") [])
run_cold-IsHonest_example =
    run_cold-IsHonest host plain (codes "powershell.exe") false (codes "s") (codes "{}") [] refl

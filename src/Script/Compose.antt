-- ===== src/Script/Compose.antt =====
-- internal/adscript/script.go: scripts are composed of embedded files. The embedded file system is a
-- parameter: `files dir name` is the file name.ps1 of the folder dir, if it is there.
use go_adpwsh.Prelude.{
  String, Option, none, some, List, [], ◌∷◌, ◌++◌, str_eq, if◌then◌else◌, ◌>>=◌,
}
use mathlib.Core.Option
use go_adpwsh.Prelude.Text.{Bytes}
use go_adpwsh.Script.Ops.{ops, tools}

abbrev pub Files : Type 0
Files = String → String → Option Bytes

abbrev pub Scripts : Type 0
Scripts = List (String × Bytes)

unfoldable pub find_script : String → Scripts → Option Bytes
find_script op [] = none
find_script op ((n, s) ∷ rest) = if str_eq n op then some s else find_script op rest

-- compose: a missing fragment is an error.
unfoldable pub compose : Files → Bytes → Bytes → String → List String → Option Scripts
compose files preamble epilogue dir [] = some []
compose files preamble epilogue dir (name ∷ names) =
    let rest = compose files preamble epilogue dir names in
    elim (files dir name) [
      | none ↦ none
      | some frag ↦ Option.map (λ out. (name, preamble ++ (frag ++ epilogue)) ∷ out) rest
    ]

-- The set of the psopenad dialect: a missing fragment leaves its operation out.
unfoldable pub compose_present : Files → Bytes → Bytes → String → List String → Scripts
compose_present files preamble epilogue dir [] = []
compose_present files preamble epilogue dir (name ∷ names) =
    let rest = compose_present files preamble epilogue dir names in
    elim (files dir name) [
      | none ↦ rest
      | some frag ↦ (name, preamble ++ (frag ++ epilogue)) ∷ rest
    ]

-- `if frag, ok := psSet[base]; ok { psSet[clm] = frag }`
unfoldable pub alias : String → String → Scripts → Scripts
unfolding find_script
alias clm base set = elim (find_script base set) [ none ↦ set | some frag ↦ (clm, frag) ∷ set ]

pub record Loaded : Type 0 where
  pub adws : Scripts
  pub tool_scripts : Scripts
  pub psopenad : Scripts

unfoldable pub psopenad_set : Files → Scripts
unfolding alias compose_present
psopenad_set files = elim (files "ops_psopenad" "preamble") [
  | none ↦ []
  | some pre ↦ elim (files "ops_psopenad" "epilogue") [
    | none ↦ []
    | some epi ↦ alias "acl_revoke_clm" "acl_revoke" (
        alias "acl_grant_clm" "acl_grant"
          (alias "acl_read_clm" "acl_read" (compose_present files pre epi "ops_psopenad" ops)))
  ]
]

-- load; `none` is a load error.
unfoldable pub load : Files → Option Loaded
unfolding compose psopenad_set
load files = do
  preamble ← files "." "preamble"
  epilogue ← files "." "epilogue"
  composed ← compose files preamble epilogue "ops" ops
  composed_tools ← compose files preamble epilogue "tools" tools
  some (record { adws = composed; tool_scripts = composed_tools; psopenad = psopenad_set files })

-- ScriptFor; `none` is an error.
unfoldable pub script_for : Files → String → String → Option Bytes
unfolding load find_script
script_for files dialect op = do
  l ← load files
  if str_eq dialect "adws"
      then find_script op l.adws
      else if str_eq dialect "psopenad"
      then find_script op l.psopenad
      else none

-- Script
unfoldable pub script : Files → String → Option Bytes
unfolding load find_script
script files op = do l ← load files; find_script op l.adws

-- ToolScript
unfoldable pub tool_script : Files → String → Option Bytes
unfolding load find_script
tool_script files name = do l ← load files; find_script name l.tool_scripts

-- ===== src/Client/Ou/Script.antt =====
-- internal/adscript/ops/ou_update.ps1: the commands that the script issues for a payload of Update,
-- and a directory that carries them out. The directory is a parameter.
use go_adpwsh.Prelude.{
  ◌≡◌, String, Bool, true, false, Option, some, List, [], ◌∷◌, ◌++◌, ◌>>=◌, str_eq,
}
use go_adpwsh.Prelude.Json.{bool, str, arr, nil, cons}
use go_adpwsh.Core.Mask.{Payload, dict, leaf, Entries, get}

-- Set-ADOrganizationalUnit @s, Rename-ADObject, Move-ADObject, Set-ADOrganizationalUnit with
-- -ProtectedFromAccidentalDeletion, and Get-ADOrganizationalUnit. Each has an -Identity, which the
-- first takes from its splat.
pub data Command : Type 0 where
  set_attributes : Entries → Command
  rename : String → String → Command
  move : String → String → Command
  protect : String → Bool → Command
  read_back : String → Command

-- A parameter of a splat that is a text.
unfoldable pub text_at : String → Entries → String
unfolding get
text_at k es = elim (get k es) [ some (leaf (str t)) ↦ t | _ ↦ "" ]

-- if ($p.set)
abbrev pub set_step : Option Payload → List Command
set_step (some (dict es)) = set_attributes es ∷ []
set_step _ = []

-- The -Identity of a command.
unfoldable pub identity_of : Command → String
unfolding text_at
identity_of (set_attributes es) = text_at "Identity" es
identity_of (rename id n) = id
identity_of (move id c) = id
identity_of (protect id b) = id
identity_of (read_back id) = id

-- if ($p.rename)
abbrev pub rename_step : Option Payload → List Command
rename_step (some (dict es)) = rename (text_at "Identity" es) (text_at "NewName" es) ∷ []
rename_step _ = []

-- if ($p.unprotectBeforeMove), within the test of $p.move
abbrev pub lift_step : String → Option Payload → List Command
lift_step id (some (leaf (bool true))) = protect id false ∷ []
lift_step id _ = []

-- if ($p.move)
abbrev pub move_step : String → Option Payload → Option Payload → List Command
move_step id (some (dict es)) lift =
    lift_step id lift ++ move (text_at "Identity" es) (text_at "TargetPath" es) ∷ []
move_step id _ lift = []

-- if ($null -ne $p.protect)
abbrev pub protect_step : String → Option Payload → List Command
protect_step id (some (leaf (bool b))) = protect id b ∷ []
protect_step id _ = []

-- The commands that change the unit, in order.
unfoldable pub changes : Entries → List Command
unfolding get text_at
changes p =
    let id = text_at "identity" p in
    set_step (get "set" p)
    ++ (rename_step (get "rename" p)
        ++ (move_step id (get "move" p) (get "unprotectBeforeMove" p)
            ++ protect_step id (get "protect" p)))

-- The commands of the script: the last one reads what it returns.
unfoldable pub commands : Entries → List Command
unfolding changes text_at
commands p = changes p ++ read_back (text_at "identity" p) ∷ []

-- What Update is about, of an organizational unit.
pub record View : Type 0 where
  pub name : String
  pub container : String
  pub description : String
  pub protected : Bool

-- The -Clear list of a splat names the attribute that it clears.
abbrev pub clears_description : Option Payload → Bool
clears_description (some (leaf (arr (cons (str t) nil)))) = str_eq t "description"
clears_description _ = false

abbrev pub described : Option Payload → Bool → String → String
described (some (leaf (str t))) clears old = t
described _ true old = ""
described _ false old = old

-- What a command changes when the directory permits it.
unfoldable pub effect : Command → View → View
unfolding get
effect (set_attributes es) v = record v {
  description =
      described (get "Description" es) (clears_description (get "Clear" es)) v.description;
}
effect (rename id n) v = record v { name = n }
effect (move id c) v = record v { container = c }
effect (protect id b) v = record v { protected = b }
effect (read_back id) v = v

-- The flag denies the right by which an object is moved.
abbrev pub Allowed : Command → View → Type 0
Allowed (move id c) v = v.protected ≡ false
Allowed _ v = Unit {0}

-- A directory: its states, what can be seen of the organizational unit in one, whether an identity
-- leads to it, and how a command is carried out, where `none` is an error.
pub record Directory (S : Type 0) : Type 0 where
  pub view : S → View
  pub finds : S → String → Bool
  pub perform : Command → S → Option S

abbrev pub Permitted : (S : Type 0) → Directory S → Command → S → Type 0
Permitted S d k s = (d.finds s (identity_of k) ≡ true) × Allowed k (d.view s)

-- A directory that carries out what is permitted.
abbrev pub Obeys : (S : Type 0) → Directory S → Type 0
Obeys S d =
    (k : Command) (s : S)
    → Permitted S d k s
    → (s' : S) × (d.perform k s ≡ some s') × (d.view s' ≡ effect k (d.view s))

-- An identity, such as a GUID, that leads to the unit for ever once it does.
abbrev pub Lasts : (S : Type 0) → Directory S → String → Type 0
Lasts S d id =
    (k : Command) (s s' : S) → d.finds s id ≡ true → d.perform k s ≡ some s' → d.finds s' id ≡ true

-- The script stops at the first command that fails.
unfoldable pub perform_all : {S : Type 0} → Directory S → List Command → S → Option S
perform_all d [] s = some s
perform_all d (k ∷ ks) s = d.perform k s >>= perform_all d ks

-- ===== src/Tests/Objects.antt =====
-- The clients of ou.go, computer.go and client.go, with a directory whose replies are a list.
use go_adpwsh.Prelude.{
  ℕ, zero, suc, ◌+◌, ◌-◌, ◌≤◌, ◌≡◌, ◌↔◌, ◌&&◌, refl, String, Bool, true, false, Option, none, some,
  List, [], ◌∷◌, ◌++◌, length, take, str_eq,
}
use go_adpwsh.Prelude.Json.{pos, negsuc, Value, null, bool, str, arr, obj, cons, nil, end, member}
use go_adpwsh.Core.Errors.{unknown, ok}
use go_adpwsh.Core.Envelope.{sentinel_begin, sentinel_end}
use go_adpwsh.Core.Exec.{Platform, dialect_adws, ran}
use go_adpwsh.Client.Replication.{ReplicationConfig, arrived}
use go_adpwsh.Client.Objects.Shape.{
  Identity, valid, invalid, PresenceCheck, scope_unset, Query, Adcore, query_payload,
}
use go_adpwsh.Client.Objects.Access.{ask, find}
use go_adpwsh.Client.Objects.Writing.{returned}
use go_adpwsh.Client.Objects.Searches.{Models, find_complete}
use go_adpwsh.Client.Ou.Plans.{Ou, OuSpec, plan_update}
use go_adpwsh.Client.Ou.Stale.{Refuses, plan_update-stale}
use go_adpwsh.Core.Errors.{Error, error_of, already_exists, nothing}
use go_adpwsh.Client.Deleted.{Annotates, annotate_already_exists, annotate_already_exists-Annotates}
use go_adpwsh.Prelude.{if◌then◌else◌, Bool-cases, arith, subst, inl, inr}
use go_adpwsh.Client.Ou.Script.{identity_of, Command, rename, move, View, effect, Directory}
use go_adpwsh.Client.Ou.Moves.{view_of, run_plan}
use go_adpwsh.Client.Ou.{OuJson, ou_resource, get, ask_delete, delete}
use go_adpwsh.Client.Computer.Plans.{Computer}
use go_adpwsh.Client.Laws.Removal.{Answered, delete-Gone}
use go_adpwsh.Client.Laws.Idle.{computer_spec_of, update-idle}
use go_adpwsh.Client.Laws.Pinned.{IsPinned, new-IsPinned}
use go_adpwsh.Client.New.{Config, Client, new, is_psopenad}
use go_adpwsh.Client.Computer
use go_adpwsh.Tests.Demo.{demo, client, idle_session, three_attempts}

abbrev nth : ℕ → List Value → Value
nth n [] = null
nth zero (v ∷ vs) = v
nth (suc n) (v ∷ vs) = nth n vs

abbrev success : Value → Value
success data' = obj (member "ok" (bool true) (member "data" data' end))

-- The calls are answered in order with the values.
abbrev scripted : List Value → Platform
scripted replies = record demo {
  json = λ b. elim b [ [] ↦ none | c ∷ cs ↦ some (success (nth (c - b'0') replies)) ];
  run = λ cs call. ran (record {
    stdout = sentinel_begin ++ (b'0' + length cs) ∷ sentinel_end;
    stderr = [];
    exit_code = pos 0;
  });
}

abbrev presence : PresenceCheck
presence = record { exception_type = ""; error_code = pos 0; kind = unknown; others = null }

abbrev adcore : Adcore
adcore = record {
  container_of = λ dn. valid "OU=x";
  equal_fold_dn = λ a b. valid (str_eq a b);
  escape_filter = λ s. s;
  with_identity = λ e op id. e;
  is_not_found = λ e. false;
  validate_name = λ op name. none;
  validate_container = λ op container. none;
  decode_presence = λ v. some presence;
  confirm_absent = λ check op id dn. none;
  with_defaults = λ q dnc. record q { search_base = dnc };
  parse_time = λ s. invalid "time";
  format_time = λ t. "";
}

abbrev an_id : Identity
an_id = record { text = "guid:1"; arg = "1" }

abbrev a_unit : Ou
a_unit = record {
  guid = "1";
  dn = "OU=a,OU=x";
  name = "a";
  container = "OU=x";
  description = "old";
  protected = true;
}

abbrev a_spec : OuSpec
a_spec = record { name = "b"; container = "OU=y"; description = some ""; protected = none }

-- A directory that is the view of its one unit, which some identities lead to, and refuses to move it
-- while it is protected.
abbrev obeyed : Command → View → Option View
obeyed (move id c) v = elim v.protected [ true ↦ none | false ↦ some (effect (move id c) v) ]
obeyed k v = some (effect k v)

abbrev one_unit : (View → String → Bool) → Directory View
one_unit finds = record {
  view = λ v. v;
  finds = finds;
  perform = λ k v. if finds v (identity_of k) then obeyed k v else none;
}

abbrev by_guid : View → String → Bool
by_guid v id = str_eq id "1"

-- The name of the unit in place of its distinguished name, which is made of it.
abbrev by_name : View → String → Bool
by_name v id = str_eq id v.name

abbrev named_id : Identity
named_id = record { text = "dn:a"; arg = "a" }

one_unit-Refuses : Refuses (one_unit by_name)
one_unit-Refuses k v lost = rw lost refl

renamed_away :
    (s s' : View) → (one_unit by_name).perform (rename "a" "b") s ≡ some s' → by_name s' "a" ≡ false
unfolding identity_of effect
renamed_away s s' done = elim (Bool-cases (by_name s "a")) [
  | inl found ↦
      let same : record s { name = "b" } ≡ s' = ground (arith, done, found) in
      subst (λ v. by_name v "a" ≡ false) same refl
  | inr lost ↦ absurd (ground (arith, done, lost))
]

plan_update-stale_example :
    run_plan (one_unit by_name) (plan_update adcore named_id a_spec a_unit) (view_of a_unit) ≡ none
plan_update-stale_example =
    plan_update-stale (one_unit by_name) one_unit-Refuses named_id adcore a_spec a_unit false
      (view_of a_unit) renamed_away refl refl

abbrev unit_json : String → Value
unit_json name = obj (
    member "objectGUID" (str "1")
      (member "distinguishedName" (str "OU=a,OU=x") (member "name" (str name) end)))

abbrev read_unit : Ou
read_unit = record a_unit { description = ""; protected = false }

-- The unit is read, and then deleted.
abbrev deleting : Platform
deleting = scripted (unit_json "a" ∷ obj (member "deleted" (bool true) end) ∷ [])

delete-Gone_example : ((delete deleting adcore client an_id true idle_session).0 ≡ ok tt) ↔ (
    (current : Ou) × ((get deleting adcore client an_id idle_session).0 ≡ ok current)
    × Answered deleting adcore an_id client true idle_session current)
delete-Gone_example = delete-Gone deleting adcore an_id client true idle_session

deleting-done : (delete deleting adcore client an_id true idle_session).0 ≡ ok tt
unfolding delete go_adpwsh.Script.Compose.script_for go_adpwsh.Core.Envelope.parse_envelope
    go_adpwsh.Prelude.Text.index go_adpwsh.Core.Envelope.parse_body go_adpwsh.Prelude.Text.slice
    go_adpwsh.Prelude.Json.lookup_member go_adpwsh.Prelude.Text.trim_space
    go_adpwsh.Client.Ou.decode_ou go_adpwsh.Client.Ou.ou_model
deleting-done = refl

abbrev searching : Platform
searching =
    scripted
      (obj (member "results" (arr (cons (unit_json "a") (cons (unit_json "b") nil))) end) ∷ [])

abbrev a_query : Query
a_query = record { filter = ""; search_base = ""; scope = scope_unset; size_limit = 2 }

abbrev json_of : String → OuJson
json_of name = record {
  guid = "1";
  dn = "OU=a,OU=x";
  name = name;
  description = "";
  protected = false;
}

abbrev two_units : List OuJson
two_units = json_of "a" ∷ json_of "b" ∷ []

abbrev found_units : List Ou
found_units = read_unit ∷ record read_unit { name = "b" } ∷ []

find_complete_example :
    ((find searching adcore (ou_resource adcore) client a_query idle_session).0 ≡ ok found_units)
    ↔ ((length two_units ≤ 2) × Models (ou_resource adcore) two_units found_units)
unfolding ask query_payload go_adpwsh.Script.Compose.script_for
    go_adpwsh.Core.Envelope.parse_envelope go_adpwsh.Prelude.Text.index
    go_adpwsh.Core.Envelope.parse_body go_adpwsh.Prelude.Text.slice
    go_adpwsh.Prelude.Json.lookup_member go_adpwsh.Prelude.Text.trim_space
    go_adpwsh.Core.Decode.decode_items go_adpwsh.Client.Ou.decode_ou go_adpwsh.Core.Mask.get
find_complete_example =
    find_complete searching adcore (ou_resource adcore) client a_query idle_session two_units
      found_units refl

abbrev no_wait : ReplicationConfig
no_wait = record {
  wait = false;
  targets = [];
  force_sync = false;
  timeout = negsuc 4;
  poll_interval = pos 0;
}

abbrev config : Config
config = record {
  transport = some (
      scripted (
        obj (member "dnsHostName" (str "dc1.x") (member "defaultNamingContext" (str "DC=x") end))
        ∷ []));
  server = "";
  credential = none;
  retry = three_attempts;
  replication = no_wait;
  dialect = dialect_adws;
}

abbrev pinned : Client
pinned = record {
  core = record client { server = "dc1.x" };
  replication = record no_wait { timeout = pos 60_000_000_000; poll_interval = pos 2_000_000_000 };
}

new-IsPinned_example :
    ((p : Platform) × (config.transport ≡ some p))
    × ((is_psopenad config.dialect && config.replication.force_sync) ≡ false)
    × IsPinned (λ r. r) config pinned
unfolding new go_adpwsh.Script.Compose.script_for go_adpwsh.Core.Envelope.parse_envelope
    go_adpwsh.Prelude.Text.index go_adpwsh.Core.Envelope.parse_body go_adpwsh.Prelude.Text.slice
    go_adpwsh.Prelude.Json.lookup_member go_adpwsh.Prelude.Text.trim_space
new-IsPinned_example = new-IsPinned (λ r. r) config idle_session pinned refl

abbrev host : Computer
host = record {
  guid = "1";
  dn = "CN=h,OU=x";
  name = "h";
  sam_account_name = "h";
  container = "OU=x";
  sid = "";
  enabled = true;
  dns_host_name = "";
  description = "";
  display_name = "";
  location = "";
  managed_by = "";
  trusted_for_delegation = false;
  service_principal_names = [];
  allowed_to_delegate_to = [];
  principals_allowed = [];
  kerberos_encryption_type = [];
  operating_system = "";
  operating_system_version = "";
  operating_system_service_pack = "";
  account_expiration = none;
}

abbrev hosting : Platform
hosting = scripted (
    obj (
      member "ObjectGUID" (str "1") (
        member "DistinguishedName" (str "CN=h,OU=x") (
          member "Name" (str "h")
            (member "SamAccountName" (str "h$") (member "Enabled" (bool true) end)))))
    ∷ [])

update-idle_example :
    Computer.update hosting adcore
      (λ spec op new. none)
      (λ s. 0)
      0
      client
      no_wait
      an_id
      (computer_spec_of host)
      idle_session
    ≡ (returned host arrived, (Computer.get hosting adcore client an_id idle_session).1)
unfolding Computer.get go_adpwsh.Client.Computer.Plans.sam_without_dollar
    go_adpwsh.Script.Compose.script_for go_adpwsh.Core.Envelope.parse_envelope
    go_adpwsh.Prelude.Text.index go_adpwsh.Core.Envelope.parse_body go_adpwsh.Prelude.Text.slice
    go_adpwsh.Prelude.Json.lookup_member go_adpwsh.Prelude.Text.trim_space Computer.decode_computer
    Computer.computer_model
update-idle_example =
    update-idle hosting adcore (λ spec op new. none) (λ s. 0) 0 client no_wait an_id host
      idle_session refl refl refl refl

-- One deleted object has the name.
abbrev probing : Platform
probing = scripted (
    obj
      (member "matches" (arr (cons (obj (member "distinguishedName" (str "CN=gone") end)) nil)) end)
    ∷ [])

abbrev taken : Error
taken = error_of already_exists "user_create" nothing

annotate_already_exists-Annotates_example :
    Annotates probing client taken "(f)" idle_session
      (annotate_already_exists probing client taken "(f)" idle_session)
annotate_already_exists-Annotates_example =
    annotate_already_exists-Annotates probing client taken "(f)" idle_session

taken-annotated :
    (annotate_already_exists probing client taken "(f)" idle_session).0
    ≡ record taken { tombstoned = true; target = "CN=gone" }
unfolding annotate_already_exists go_adpwsh.Script.Compose.script_for
    go_adpwsh.Core.Envelope.parse_envelope go_adpwsh.Prelude.Text.index
    go_adpwsh.Core.Envelope.parse_body go_adpwsh.Prelude.Text.slice
    go_adpwsh.Prelude.Json.lookup_member go_adpwsh.Prelude.Text.trim_space
    go_adpwsh.Core.Decode.decode_items
taken-annotated = refl

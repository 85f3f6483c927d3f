-- ===== src/Tests.antt =====
-- Runs of the scripts at small inputs.
pub mod Words
pub mod Registration
pub mod Preparation
pub mod Maintenance
pub mod Checking
pub mod Releasing
pub mod Enrollment
pub mod Rehearsing
pub mod Lab
pub mod Activation
use see_size.Base.{◌≤◌}
use see_size.Setup.Checks.Hub.{rstrip_slash}
use see_size.Setup.Checks.Version.{is_id_char}
use see_size.Setup.Checks.Hub.Plain.{is_plain_char, hub_url-plain}
use see_size.Upgrade.{mapping, atomic_json}
use see_size.Upgrade.Parts.{partition}
use see_size.Upgrade.Entries.{WellFormed, mapping-WellFormed}
use see_size.Upgrade.Atomic.{atomic_json_lem}
use mathlib.Core.List.{Perm}
use see_size.Storage.{Entry, plan, names_of}
use see_size.Storage.Retention.{Split, dues, plan-Split}
use see_size.Storage.Safety.{Removable, plan-Removable}
use see_size.Base.{
  length, All, Bool, ℕ, ◌↔◌, if◌then◌else◌, String, ◌≡◌, refl, ◌≢◌, true, false, Option, none, some,
  List, [], ◌∷◌, ◌++◌, contains, string_eq, arith, ◌⊎◌, eqb, leb, ◌&&◌, list_eq, nat_eq,
}
use see_size.Base.Dict.{Dict, lookup}
use see_size.Base.Text.{codes}
use see_size.Fs.{FilePath, ◌//◌, Bytes, Fs, Node, Kind, file, folder, under}
use see_size.Json.{Json, array, nil, number, text, object, end, field}
use see_size.Script.{
  Result, Machine, World, fine, ok, Url, Attempt, answered, absent, pure, ◌>>=◌, each, catch,
  finally,
}
use see_size.Script.Rules.{Outcome, Keeps-pure}
use see_size.Script.Frame.{Holds}
use see_size.Script.Frame.Keep.{Undisturbed}
use see_size.Setup.{root, cache, agent_program, enroll_program, unit, data_folder}
use see_size.Setup.Checks.Version.Pattern.{IsVersion, version_iff}
use see_size.Setup.Checks.Version.{version}
use see_size.Setup.Checks.Binary.{validate_binary}
use see_size.Setup.Cache.{release_binary}
use see_size.Setup.Cache.Slots.{release_binary_lem}
use see_size.Setup.Fetch.{receive, unfinished, fetch}
use see_size.Setup.Fetch.Bounds.{receive-ne-unfinished}
use see_size.Setup.Fetch.Retry.{Fetched, FailedCleanly, fetch_lem}
use native.Mathlib.Decide.{ℕ_discrete}
use see_size.Fs.{stat}
use see_size.Script.Files.{read}
use see_size.Setup.Preflight.{preflight}
use see_size.Script.Files.{
  stat_of, run_checked, run_status, spawn, read_line, change, write, copy_file, unlink,
  unlink_if_there, rename, rename_folder, mkdir, make_temp_folder, make_temp_file, rmtree,
}
use see_size.Setup.Checks.Manifest.{saved_release, manifest, hash_of, saved_connection, is_sha256}
use see_size.Base.Text.{all_of, splitlines, after, split_lines}
use see_size.Setup.Checks.Binary.{not_elf, from_bytes}
use see_size.Setup.Checks.Hub.{hub_url, strip}
use see_size.Setup.Checks.Version.{device_id}
use see_size.Fs.{path_text, remove_tree, put_file, set_mode, move_file, move_tree, shift, vacant}
use see_size.Base.Dict.{children, insert, keep}
use see_size.Json.{get_field}
use see_size.Setup.Replace.{clean_up, update_workspace, validate_rollback}
use see_size.Setup.Replace.{atomic_copy}
use see_size.Setup.Replace.Atomic.{atomic_copy_lem}
use package.text.Mathlib.TextEquality.{eq_iff}
use see_size.Setup.Update.{
  replaced, stage, switch, update, rollback, candidate_of, previous_of, token,
}
use see_size.Setup.Update.Slots.{Root, Folder, Work, LeavesRoot, package_cases}
use see_size.Setup.Update.Stage.{IsPackage, stage_lem}
use see_size.Setup.Update.Rollback.{Recoverable}
use see_size.Setup.Update.Switch.{switch_lem}
use see_size.Setup.Update.Safety.{Finished, Stopped, update_lem}

abbrev https_url : Url
https_url = record {
  scheme = "https";
  hostname = some "hub.example";
  username = none;
  password = none;
  path = "";
  query = "";
  fragment = "";
  port = some none;
}

abbrev pub some_hash : String
some_hash = "0123456789abcdef0123456789abcdef0123456789abcdef0123456789abcdef"

-- A manifest for v0.2.0, or v0.1.0.
abbrev pub release_json : String → Json
release_json v = object (
    field "schema" (number (some 1)) (
      field "version" (text v) (
        field "platform" (text "linux-amd64") (
          field "hub_requirement" (text "v0.1.0") (
            field "sha256"
              (object
                (field agent_program (text some_hash) (field enroll_program (text some_hash) end)))
              end)))))

abbrev connection_json : Json
connection_json = object (field "hub" (text "https://hub.example") (field "id" (text "vm-1") end))

-- The agent's unit as installed.
abbrev start_args : List String
start_args =
    "/opt/seesize-agent/seesize-agent-linux-amd64" ∷ "-hub" ∷ "https://hub.example" ∷ "-id" ∷ "vm-1"
    ∷ "-token-file" ∷ "/var/lib/seesize-agent/agent.token" ∷ "-interval" ∷ "10s" ∷ []

-- A program: the start of an ELF file for x86-64.
abbrev pub program : Bytes
program =
    0x7f ∷ b'E' ∷ b'L' ∷ b'F' ∷ 2 ∷ 1 ∷ 0 ∷ 0 ∷ 0 ∷ 0 ∷ 0 ∷ 0 ∷ 0 ∷ 0 ∷ 0 ∷ 0 ∷ 2 ∷ 0 ∷ 62 ∷ 0 ∷ []

-- The bytes that stand for the three JSON texts are their first byte.
abbrev parse_code : ℕ → Option Json
parse_code c =
    if eqb c 1
    then some (release_json "v0.1.0")
    else if eqb c 2
    then some (release_json "v0.2.0")
    else if eqb c 3
    then some connection_json
    else if eqb c 6
    then some (array nil)
    else none

abbrev parse : Bytes → Option Json
parse [] = none
parse (c ∷ s) = parse_code c

abbrev answer_to : String → Attempt
answer_to url = answered absent (program ∷ []) none

-- Where the paths of the tests lead.
abbrev pub candidate_path : String → FilePath
candidate_path s = [] // "build" // s

-- A machine on which all goes well and commands write nothing.
abbrev pub machine : Machine
machine = record {
  fate = λ i. fine;
  shell = λ i args fs. record {
    ending = ok 0;
    stdout = elim (contains args "DropInPaths") [ true ↦ "\n" | false ↦ "active\n" ];
    fs = fs;
  };
  typed = λ i. some "update\n";
  clock = λ i. 1000;
  temp_name = λ i. "abc";
  download = λ i url. answer_to url;
  account = λ i name. some 999;
  euid = 0;
  system = "Linux";
  architecture = "x86_64";
  which = λ name. true;
  free_bytes = λ i. 1073741824;
  is_terminal = true;
  own_file = [] // "setup" // "agent-setup.py";
  home = [] // "root";
  temp_folder = [] // "tmp";
  absolute = λ s. candidate_path s;
  now_text = λ i. "2026-09-27T00:00:00Z";
  urlsplit = λ url. some https_url;
  decimal = λ c. leb b'0' c && leb c b'9';
  shlex_split = λ s. some start_args;
  sha256 = λ b. some_hash;
  loads = parse;
  dumps = λ j. 1 ∷ [];
  dump_indented = λ j. 4 ∷ [];
}

abbrev pub node : Kind → ℕ → ℕ → Node
node k uid mode = record { kind = k; uid = uid; mode = mode; mtime = 0 }

-- The installed package.
abbrev old_files : String → Bytes
old_files n = elim (contains ("seesize-agent-linux-amd64" ∷ "seesize-enroll-linux-amd64" ∷ []) n) [
  | true ↦ program
  | false ↦ 1 ∷ []
]

abbrev pub bundle_folder : FilePath
bundle_folder = [] // "bundle"

abbrev pub installed_fs : Fs
installed_fs =
    (root, node folder 0 0o755)
    ∷ (root // agent_program, node (file program) 0 0o755)
    ∷ (root // enroll_program, node (file program) 0 0o755)
    ∷ (root // "agent-release.json", node (file (1 ∷ [])) 0 0o644)
    ∷ (root // "agent-setup.py", node (file (1 ∷ [])) 0 0o644)
    ∷ (root // "connection.json", node (file (3 ∷ [])) 0 0o644)
    ∷ (data_folder, node folder 999 0o700)
    ∷ (token, node (file (7 ∷ [])) 999 0o600)
    ∷ (unit, node (file (codes "[Service]\nExecStart=agent\n")) 0 0o644)
    ∷ ([] // "etc" // "os-release", node (file (codes "ID=ubuntu\n")) 0 0o644)
    ∷ (bundle_folder // "agent-release.json", node (file (2 ∷ [])) 0 0o644)
    ∷ (bundle_folder // agent_program, node (file program) 0 0o644)
    ∷ (bundle_folder // enroll_program, node (file program) 0 0o644)
    ∷ ([] // "setup" // "agent-setup.py", node (file (5 ∷ [])) 0 0o644)
    ∷ ([] // "var", node folder 0 0o755)
    ∷ ([] // "var" // "cache", node folder 0 0o755)
    ∷ []

abbrev pub installed : World
installed = record { fs = installed_fs; tick = 0; commands = [] }

installed-Root : Root old_files installed
unfolding string_eq list_eq lookup
installed-Root = package_cases (λ n. Holds (root // n) (old_files n) installed) refl refl refl refl

quiet : Undisturbed machine root
quiet i args fs q h = refl

update_lem_example :
    Outcome
      (Finished machine "v0.2.0" old_files)
      (λ _. Stopped machine "v0.2.0" old_files)
      (update machine "v0.2.0" (some bundle_folder) installed)
update_lem_example =
    update_lem machine "v0.2.0" (some bundle_folder) old_files installed quiet installed-Root

-- What stands in a workspace before the switch.
abbrev new_files : String → Bytes
new_files n = 9 ∷ []

abbrev staged_fs : Fs
staged_fs =
    (Work "w" // "previous" // agent_program, node (file program) 0 0o644)
    ∷ (Work "w" // "previous" // enroll_program, node (file program) 0 0o644)
    ∷ (Work "w" // "previous" // "agent-release.json", node (file (1 ∷ [])) 0 0o644)
    ∷ (Work "w" // "previous" // "agent-setup.py", node (file (1 ∷ [])) 0 0o644)
    ∷ (Work "w" // "candidate" // agent_program, node (file (9 ∷ [])) 0 0o644)
    ∷ (Work "w" // "candidate" // enroll_program, node (file (9 ∷ [])) 0 0o644)
    ∷ (Work "w" // "candidate" // "agent-release.json", node (file (9 ∷ [])) 0 0o644)
    ∷ (Work "w" // "candidate" // "agent-setup.py", node (file (9 ∷ [])) 0 0o644)
    ∷ installed_fs

abbrev staged : World
staged = record { fs = staged_fs; tick = 0; commands = [] }

staged-Root : Root old_files staged
unfolding string_eq list_eq lookup
staged-Root = package_cases (λ n. Holds (root // n) (old_files n) staged) refl refl refl refl

staged-previous : Folder (previous_of (Work "w")) old_files staged
unfolding string_eq list_eq lookup
staged-previous =
    package_cases (λ n. Holds (previous_of (Work "w") // n) (old_files n) staged) refl refl refl
      refl

staged-candidate : Folder (candidate_of (Work "w")) new_files staged
unfolding string_eq list_eq lookup
staged-candidate =
    package_cases (λ n. Holds (candidate_of (Work "w") // n) (new_files n) staged) refl refl refl
      refl

probe_fine-LeavesRoot : LeavesRoot (pure tt)
probe_fine-LeavesRoot = record { at = λ q b i. Keeps-pure tt }

w_apart : ◌≢◌ {A = String} "w" "rollback"
w_apart = ground (arith, eq_iff "w" "rollback")

switch_lem_example :
    Outcome
      (λ _ v. Root new_files v × Folder rollback old_files v)
      (λ _. Recoverable old_files new_files)
      (switch machine (Work "w") (pure tt) staged)
switch_lem_example =
    switch_lem machine "w" old_files new_files (pure tt) staged w_apart quiet probe_fine-LeavesRoot
      staged-Root staged-previous staged-candidate

stage_lem_example :
    Outcome
      (λ _ v.
        Root old_files v
        × ((new : String → Bytes) × (Folder (candidate_of (Work "w")) new v
              × IsPackage machine "v0.2.0" new)))
      (λ _. Root old_files)
      (stage machine (Work "w") "v0.2.0" none installed)
stage_lem_example = stage_lem machine "w" old_files "v0.2.0" none installed installed-Root

pub unit-Holds : Holds unit (codes "[Service]\nExecStart=agent\n") installed
unfolding string_eq list_eq lookup
unit-Holds = refl

unit_outside_cache : under cache unit ≡ false
unfolding string_eq list_eq under
unit_outside_cache = refl

release_binary_lem_example :
    Outcome
      (λ body v.
        Holds unit (codes "[Service]\nExecStart=agent\n") v
        × (validate_binary machine body some_hash ≡ ok tt))
      (λ _. Holds unit (codes "[Service]\nExecStart=agent\n"))
      (release_binary machine "v0.2.0" agent_program some_hash installed)
release_binary_lem_example =
    release_binary_lem machine unit (codes "[Service]\nExecStart=agent\n") "v0.2.0" agent_program
      some_hash installed unit_outside_cache unit-Holds

abbrev staged_program : FilePath
staged_program = candidate_of (Work "w") // agent_program

programs_apart : unit ≢ root // agent_program
programs_apart = ground (arith, eq_iff "opt" "etc")

staged_program-Holds : Holds staged_program (9 ∷ []) staged
unfolding string_eq list_eq lookup
staged_program-Holds = refl

old_program-Holds : Holds (root // agent_program) program staged
unfolding string_eq list_eq lookup
old_program-Holds = refl

staged-unit-Holds : Holds unit (codes "[Service]\nExecStart=agent\n") staged
unfolding string_eq list_eq lookup
staged-unit-Holds = refl

atomic_copy_lem_example :
    Outcome
      (λ _ v.
        Holds (root // agent_program) (9 ∷ []) v
        × Holds unit (codes "[Service]\nExecStart=agent\n") v)
      (λ _ v.
        (Holds (root // agent_program) program v ⊎ Holds (root // agent_program) (9 ∷ []) v)
        × Holds unit (codes "[Service]\nExecStart=agent\n") v)
      (atomic_copy machine staged_program (root // agent_program) staged)
atomic_copy_lem_example =
    atomic_copy_lem machine staged_program (root // agent_program) unit (9 ∷ []) program
      (codes "[Service]\nExecStart=agent\n") staged programs_apart staged_program-Holds
      old_program-Holds staged-unit-Holds

fetch_lem_example :
    Outcome
      (λ body v. Fetched machine "https://x/y" 100 3 installed body v × (true ≡ true))
      (λ _. FailedCleanly machine "https://x/y" 100 3 installed)
      (fetch machine "https://x/y" 100 installed)
unfolding string_eq
fetch_lem_example = fetch_lem machine "https://x/y" 100 installed

receive_example : receive 12 10 none ((1 ∷ []) ∷ (2 ∷ 3 ∷ []) ∷ []) [] ≢ unfinished
receive_example =
    receive-ne-unfinished 12 10 none ((1 ∷ []) ∷ (2 ∷ 3 ∷ []) ∷ []) [] (omega arith) (omega arith)

version_iff_example :
    (version machine "v1.20.3-rc.1" ≡ ok "v1.20.3-rc.1")
    ↔ IsVersion machine.decimal (codes "v1.20.3-rc.1")
version_iff_example = version_iff machine "v1.20.3-rc.1" refl refl

-- The whole update of the installed package from the bundle.
update_run : (update machine "v0.2.0" (some bundle_folder) installed).0 ≡ ok replaced
unfolding update ◌>>=◌ each catch finally preflight read stat lookup nat_eq ℕ_discrete string_eq
    list_eq version validate_binary under atomic_copy stat_of run_checked run_status spawn read_line
    change write copy_file unlink unlink_if_there rename rename_folder mkdir make_temp_folder
    make_temp_file rmtree saved_release manifest hash_of saved_connection is_sha256 all_of
    splitlines after split_lines not_elf from_bytes hub_url strip device_id path_text remove_tree
    put_file set_mode move_file move_tree shift vacant children insert keep get_field clean_up
    update_workspace validate_rollback
update_run = refl

-- Four rollback points, and a temporary artifact that is due.
abbrev storage_root : FilePath
storage_root = [] // "home" // "wsr" // "seesize"

abbrev rollback_entry : String → String → Entry
rollback_entry name day = record {
  name = some name;
  kind = some "rollback";
  created_at = some day;
  expires_at = none;
}

abbrev register : List Entry
register =
    rollback_entry "pre-test-0" "2026-09-20"
    ∷ rollback_entry "pre-test-1" "2026-09-21"
    ∷ rollback_entry "pre-test-2" "2026-09-22"
    ∷ rollback_entry "pre-test-3" "2026-09-23"
    ∷ record {
      name = some "migration";
      kind = some "temporary";
      created_at = none;
      expires_at = some "2026-09-24";
    }
    ∷ []

abbrev storage_fs : Fs
storage_fs =
    (storage_root // "pre-test-0", node folder 1000 0o755)
    ∷ (storage_root // "pre-test-1", node folder 1000 0o755)
    ∷ (storage_root // "pre-test-2", node folder 1000 0o755)
    ∷ (storage_root // "pre-test-3", node folder 1000 0o755)
    ∷ (storage_root // "migration", node folder 1000 0o755)
    ∷ (storage_root // "unknown", node folder 1000 0o755)
    ∷ []

abbrev pub no_mount : FilePath → Bool
no_mount p = false

abbrev pub always_due : String → ℕ → Result Bool
always_due t now = ok true

plan_run :
    plan no_mount always_due storage_root 0 storage_fs register
    ≡ ok ("migration" ∷ "pre-test-0" ∷ [])
unfolding plan string_eq list_eq nat_eq ℕ_discrete stat lookup under
plan_run = refl

plan-Removable_example :
    All
      (Removable no_mount always_due storage_root 0 storage_fs register)
      ("migration" ∷ "pre-test-0" ∷ [])
plan-Removable_example =
    plan-Removable no_mount always_due storage_root 0 storage_fs register
      ("migration" ∷ "pre-test-0" ∷ []) plan_run

plan-Split_example :
    (kept : List (String × String)) × ((gone : List (String × String)) × (Split always_due
          storage_root 0 storage_fs no_mount register kept gone
        × Perm
            ("migration" ∷ "pre-test-0" ∷ [])
            (dues always_due storage_root 0 storage_fs register ++ names_of gone)))
plan-Split_example =
    plan-Split always_due storage_root 0 storage_fs no_mount register
      ("migration" ∷ "pre-test-0" ∷ []) plan_run

abbrev candidates : List String
candidates = "hub=/tmp/hub" ∷ "backup=/tmp/b=1" ∷ []

abbrev candidate_map : Dict String String
candidate_map = ("hub", "/tmp/hub") ∷ ("backup", "/tmp/b=1") ∷ []

mapping_run : mapping candidates ≡ ok candidate_map
unfolding mapping partition string_eq lookup
mapping_run = refl

mapping-WellFormed_example : WellFormed candidate_map × (length candidate_map ≡ length candidates)
mapping-WellFormed_example = mapping-WellFormed candidates candidate_map mapping_run

atomic_json_lem_example :
    Outcome
      (λ _ v.
        Holds (root // agent_program) (9 ∷ []) v
        × Holds unit (codes "[Service]\nExecStart=agent\n") v)
      (λ _ v.
        (Holds (root // agent_program) program v ⊎ Holds (root // agent_program) (9 ∷ []) v)
        × Holds unit (codes "[Service]\nExecStart=agent\n") v)
      (atomic_json machine (root // agent_program) (9 ∷ []) staged)
atomic_json_lem_example =
    atomic_json_lem machine (root // agent_program) unit (9 ∷ []) program
      (codes "[Service]\nExecStart=agent\n") staged programs_apart old_program-Holds
      staged-unit-Holds

hub_url_run : hub_url machine "https://hub.example/" ≡ ok "https://hub.example"
unfolding hub_url string_eq
hub_url_run = refl

hub_url-plain_example :
    (◌≡◌ {A = String} "https://hub.example" (rstrip_slash "https://hub.example/"))
    × (all_of is_plain_char (codes "https://hub.example") ≡ true)
hub_url-plain_example =
    hub_url-plain machine "https://hub.example/" "https://hub.example" hub_url_run

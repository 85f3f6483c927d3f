-- ===== src/Upgrade/Prepare.antt =====
-- scripts/upgrade-prepare.py: `main` behind the command line. An error of the parser is a
-- `SystemExit`. Another process that holds the lock shows as a failing lock call.
pub mod Frame
pub mod Bundle
pub mod Safety
use see_size.Base.{
  ℕ, ◌+◌, ◌*◌, ◌^◌, ◌==◌, nat_eq, string_eq, list_eq, String, ◌<>◌, Bool, true, false, not, ◌&&◌,
  ◌||◌, Option, none, some, List, [], ◌∷◌, if◌then◌else◌, contains, ltb, leb, eqb, length, is_some,
  bit_and, starts_with,
}
use see_size.Base.Dict.{Dict, lookup, keys, children}
use see_size.Base.Text.{codes, is_alnum, all_of}
use see_size.Fs.{FilePath, ◌//◌, Fs, Bytes, is_symlink, is_file, exists, path_text, size}
use see_size.Json.{
  Json, null, boolean, number, text, array, object, Items, nil, cons, Fields, end, field, get_field,
}
use see_size.Script.{
  Machine, World, Exc, system_exit, os_error, value_error, runtime_error, crash, Result, ok, err,
  Action, pure, raise, ◌>>=◌, ◌>>◌, raise_if, or_raise, catch, each, gets,
}
use see_size.Script.Checked.{lift, or_refuse}
use see_size.Script.Files.{
  change, read, stat_of, copy_file, chmod, mkdir, rmtree, run_checked, write,
}
use see_size.Setup.Cache.{refuse}
use see_size.Upgrade.{upgrade_components, mapping, atomic_json, digest, validate_candidate, is_real}

-- The command line.
pub record Args : Type 0 where
  pub root : String
  pub release : String
  pub candidate : List String
  pub sha256 : List String
  pub prepare : Bool

abbrev is_label_char : ℕ → Bool
is_label_char c = is_alnum c || eqb c b'_' || eqb c b'-'

-- `[a-zA-Z0-9][a-zA-Z0-9_-]{0,63}`
is_release_label : List ℕ → Bool
is_release_label [] = false
is_release_label (c ∷ s) = is_alnum c && all_of is_label_char s && leb (length s) 63

-- `root/f'seesize-{c}-linux-amd64'`
abbrev pub program_name : String → String
program_name c = "seesize-" <> c <> "-linux-amd64"

abbrev pub programs_in : FilePath → List String → List FilePath
programs_in d [] = []
programs_in d (c ∷ cs) = (d // program_name c) ∷ programs_in d cs

pub values : Dict String FilePath → List FilePath
values [] = []
values ((c, p) ∷ d) = p ∷ values d

pub all_keys : List String → List String → Bool
all_keys [] ks = true
all_keys (c ∷ cs) ks = contains ks c && all_keys cs ks

abbrev same_keys : Dict String String → Dict String String → Bool
same_keys d e = all_keys (keys d) (keys e) && all_keys (keys e) (keys d)

-- `any(e['name'] == name for e in entries)`, up to the first that does.
registered_in : Items → String → Result Bool
registered_in nil name = ok false
registered_in (cons (object fs) rest) name = elim (get_field "name" fs) [
  | none ↦ err crash
  | some (text s) ↦ if s == name then ok true else registered_in rest name
  | some _ ↦ registered_in rest name
]
registered_in (cons _ rest) name = err crash

-- Of other values only an empty one can be gone through.
pub registered : Json → String → Result Bool
registered (array items) name = registered_in items name
registered (object end) name = ok false
registered (text s) name = if s == "" then ok false else err crash
registered _ name = err crash

append_items : Items → Json → Items
append_items nil j = cons j nil
append_items (cons x xs) j = cons x (append_items xs j)

-- `entries.append(entry)`
pub append : Json → Json → Result Json
append (array items) j = ok (array (append_items items j))
append _ j = err crash

texts : List String → Items
texts [] = nil
texts (s ∷ ss) = cons (text s) (texts ss)

text_fields : Dict String String → Fields
text_fields [] = end
text_fields ((k, v) ∷ d) = field k (text v) (text_fields d)

ends_db : List ℕ → Bool
ends_db [] = false
ends_db (c ∷ s) = (c ∷ s) == codes ".db" || ends_db s

-- `target.glob('seesize-*.db')`, over the names in the folder.
snapshots : List String → List String
snapshots [] = []
snapshots (n ∷ ns) =
    let rest = snapshots ns in
    if starts_with n "seesize-" && ends_db (codes n) then n ∷ rest else rest

-- What the checks before any change found.
pub record Ready : Type 0 where
  pub root : FilePath
  pub target : FilePath
  pub release : String
  pub candidates : Dict String FilePath
  pub hashes : Dict String String
  pub estimate : ℕ

abbrev pub register : FilePath → FilePath
register root = root // "maintenance-artifacts.json"

abbrev pub exit_if : Bool → String → Action (Unit {0})
exit_if b s = raise_if b (system_exit s)

abbrev pub refuse_exit : (Fs → Bool) → String → Action (Unit {0})
refuse_exit test s = refuse test (system_exit s)

abbrev units : List String
units =
    "seesize-hub.service" ∷ "seesize-agent.service" ∷ "seesize-backup.service"
    ∷ "seesize-backup.timer" ∷ []

module _ (m : Machine) where
  pub validate_all : Dict String String → Dict String String → Action (Dict String FilePath)
  validate_all [] hashes = pure []
  validate_all ((c, p) ∷ supplied) hashes = do
    hash ← lift (or_refuse (lookup c hashes) crash)
    path ← validate_candidate m (m.absolute p) hash
    rest ← validate_all supplied hashes
    pure ((c, path) ∷ rest)

  pub total_size : List FilePath → Action ℕ
  total_size [] = pure 0
  total_size (p ∷ ps) = do n ← stat_of m p; rest ← total_size ps; pure (size n + rest)

  pub read_json : FilePath → Action Json
  read_json p = do raw ← read m p; or_raise (m.loads raw) (value_error "JSONDecodeError")

  pub refuse_registered : Json → String → Action (Unit {0})
  refuse_registered entries name = do
    known ← lift (registered entries name)
    exit_if known "release already registered"

  -- Everything before `report`: nothing is changed.
  pub check : Args → Action Ready
  check args = do
    exit_if (not (is_release_label (codes args.release))) "invalid release label"
    let root = m.absolute args.root
    refuse (λ fs. not (exists fs root)) os_error
    refuse_exit (λ fs. not (is_real fs root) || root == [] || root == m.home)
        "dedicated real application root required"
    n ← stat_of m root
    exit_if (not (bit_and n.mode 0o077 == 0)) "application root must deny group/other access"
    let database = root // "data" // "seesize.db"
    refuse_exit
        (λ fs.
          not (is_file fs database) || is_symlink fs (root // "data") || is_symlink fs database)
        "live database missing or symlinked"
    supplied ← lift (mapping args.candidate)
    hashes ← lift (mapping args.sha256)
    exit_if (not (same_keys supplied hashes)) "candidate/hash component sets must match"
    candidates ← validate_all supplied hashes
    each upgrade_components (λ c.
        refuse_exit
          (λ fs.
            not (is_file fs (root // program_name c)) || is_symlink fs (root // program_name c))
          "missing regular current program")
    each candidates (λ (c, p).
        exit_if (contains (programs_in root upgrade_components) p)
          "candidate must not be any live binary")
    let target = root // ("pre-" <> args.release)
    refuse_exit (λ fs. exists fs target || is_symlink fs target) "rollback target already exists"
    refuse_exit (λ fs. is_symlink fs (register root)) "manifest must not be a symlink"
    entries ← read_json (register root)
    refuse_registered entries ("pre-" <> args.release)
    db ← stat_of m database
    live ← total_size (programs_in root upgrade_components)
    new ← total_size (values candidates)
    let estimate = size db * 2 + live + new
    λ w.
        exit_if (ltb (m.free_bytes w.tick) (estimate + 2 * 1024 ^ 3))
          "insufficient headroom: bundle estimate plus 2 GiB required" w
    pure (record {
      root = root;
      target = target;
      release = args.release;
      candidates = candidates;
      hashes = hashes;
      estimate = estimate;
    })

  -- `shutil.copy2(p, q)`: the bytes, then the mode.
  pub copy2 : FilePath → FilePath → Action (Unit {0})
  copy2 p q = do copy_file m p q; n ← stat_of m p; chmod m q n.mode

  pub keep_programs : FilePath → FilePath → Action (Unit {0})
  keep_programs root target =
      each upgrade_components (λ c. copy2 (root // program_name c) (target // program_name c))

  pub stage_candidate : FilePath → Dict String String → String × FilePath → Action (Unit {0})
  stage_candidate stage hashes (c, p) = do
    copy_file m p (stage // program_name c)
    chmod m (stage // program_name c) 0o700
    hash ← lift (or_refuse (lookup c hashes) crash)
    path ← validate_candidate m (stage // program_name c) hash
    pure tt

  pub read_configs : List String → Action Fields
  read_configs [] = pure end
  read_configs (u ∷ us) = do
    shown ← run_checked m ("systemctl" ∷ "--user" ∷ "cat" ∷ u ∷ [])
    rest ← read_configs us
    pure (field u (text shown) rest)

  pub old_hashes : FilePath → List String → Action Fields
  old_hashes target [] = pure end
  old_hashes target (c ∷ cs) = do
    hash ← digest m (target // program_name c)
    rest ← old_hashes target cs
    pure (field c (text hash) rest)

  abbrev report : Ready → Fields → List String → String → Json
  report r old files created = object (
      field "release" (text r.release) (
        field "activate" (boolean false) (
          field "prepared" (boolean true) (
            field "directory" (text (path_text r.target)) (
              field "candidate_hashes" (object (text_fields r.hashes)) (
                field "estimated_bytes" (number (some r.estimate)) (
                  field "old_hashes" (object old) (
                    field "backup_files" (array (texts files))
                      (field "created_at" (text created) end)))))))))

  abbrev pub entry : String → String → Json
  entry name created = object (
      field "name" (text name)
        (field "kind" (text "rollback") (field "created_at" (text created) end)))

  -- The body of the `try`: the bundle, then the register.
  pub make_bundle : Ready → Json → Action (Unit {0})
  make_bundle r entries = do
    keep_programs r.root r.target
    let stage = r.target // "candidates"
    mkdir m stage 0o700
    each r.candidates (stage_candidate stage r.hashes)
    configs ← read_configs units
    atomic_json m (r.target // "service-configs.json") (m.dump_indented (object configs))
    shown ← run_checked m (
        path_text (r.root // program_name "backup")
        ∷ "-source"
        ∷ path_text (r.root // "data" // "seesize.db")
        ∷ "-dir"
        ∷ path_text r.target
        ∷ "-keep"
        ∷ "1"
        ∷ [])
    old ← old_hashes r.target upgrade_components
    files ← gets (λ fs. snapshots (children r.target fs))
    raise_if (not (length files == 1)) (runtime_error "expected one verified snapshot")
    created ← (λ w. pure (m.now_text w.tick) w)
    atomic_json m (r.target // "release.json") (m.dump_indented (report r old files created))
    all ← lift (append entries (entry ("pre-" <> r.release) created))
    atomic_json m (register r.root) (m.dump_indented all)

  -- `lockpath.open('a')` and `flock`.
  pub lock : FilePath → Action (Unit {0})
  lock p = do
    refuse_exit (λ fs. is_symlink fs p) "lock must not be a symlink"
    λ w. if is_some (lookup p w.fs) then change m (λ fs. fs) w else write m p [] 0o644 w
    change m (λ fs. fs)

  -- What was not committed is removed again.
  pub commit : Ready → Action (Unit {0})
  commit r = do
    lock (r.root // ".maintenance.lock")
    entries ← read_json (register r.root)
    refuse_registered entries ("pre-" <> r.release)
    mkdir m r.target 0o700
    catch (make_bundle r entries) (λ e. do rmtree m r.target; raise e)

  unfoldable pub main : Args → Action (Unit {0})
  unfolding is_release_label all_keys registered_in registered append_items append texts text_fields
      ends_db snapshots validate_all total_size read_json refuse_registered check copy2
      keep_programs stage_candidate read_configs old_hashes make_bundle lock commit
  main args = do r ← check args; if args.prepare then commit r else pure tt

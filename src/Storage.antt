-- ===== src/Storage.antt =====
-- scripts/storage-maintenance.py: `plan`. An entry's values are texts or missing, as the register
-- has them. The mount points and the reading of times are given.
pub mod Safety
pub mod Main
pub mod Order
pub mod Sorted
pub mod Retention
use Prim.Native.String.{compare}
use Prim.Native.Nat.{Ordering}
use see_size.Base.{
  ℕ, ◌==◌, nat_eq, string_eq, list_eq, String, Bool, true, false, not, ◌&&◌, ◌||◌, Option, none,
  some, List, [], ◌∷◌, ◌++◌, if◌then◌else◌, contains, drop, starts_with, eqb,
}
use see_size.Base.Text.{codes}
use see_size.Fs.{FilePath, ◌//◌, Fs, Node, is_symlink, is_dir, exists, under, parent, kind_is_link}
use see_size.Script.{Result, ok, err, value_error, crash}
use see_size.Script.Checked.{◌>>=◌, ◌>>◌, refuse_if, or_refuse}

pub record Entry : Type 0 where
  pub name : Option String
  pub kind : Option String
  pub created_at : Option String
  pub expires_at : Option String

abbrev pub protected : List String
protected =
    "data" ∷ "backups" ∷ "admin.token" ∷ "agent.token" ∷ "maintenance-artifacts.json"
    ∷ "storage-status.json" ∷ []

-- `targets`, `rollback` and `seen` of `plan`.
pub record Scan : Type 0 where
  pub targets : List String
  pub rollback : List (String × String)
  pub seen : List String

-- A text is no later than another.
abbrev pub le : String → String → Bool
le s t = elim (compare s t) [ Ordering.gt ↦ false | _ ↦ true ]

-- A rollback point is no older than another: `created_at` first, then the name.
abbrev pub newer : String × String → String × String → Bool
newer (a, n) (b, k) = if a == b then le k n else le b a

insert_sorted : {A : Type 0} → (A → A → Bool) → A → List A → List A
insert_sorted before x [] = x ∷ []
insert_sorted before x (y ∷ ys) =
    let rest = insert_sorted before x ys in if before x y then x ∷ y ∷ ys else y ∷ rest

-- `sorted`
pub sort : {A : Type 0} → (A → A → Bool) → List A → List A
sort before [] = []
sort before (x ∷ xs) = insert_sorted before x (sort before xs)

pub names_of : List (String × String) → List String
names_of [] = []
names_of ((t, n) ∷ rest) = n ∷ names_of rest

-- `Path(name).name != name or name in ('.', '..') or '/' in name or '\\' in name`, negated: without
-- a slash, only `.` differs from its path's name.
pub is_plain : String → Bool
is_plain n =
    not (n == ".")
    && not (n == "..")
    && not (contains (codes n) b'/')
    && not (contains (codes n) b'\\')

pub is_rollback_name : String → Bool
is_rollback_name n = starts_with n "pre-" || starts_with n "hub-before-"

pub is_temporary_name : String → Bool
is_temporary_name n = starts_with n "restore-check-" || starts_with n "migrate-" || n == "migration"

allowed : String → String → Result (Unit {0})
allowed kind name =
    if kind == "rollback"
    then refuse_if (not (is_rollback_name name)) (value_error "rollback name not allowed")
    else if kind == "temporary"
    then refuse_if (not (is_temporary_name name)) (value_error "temporary name not allowed")
    else err (value_error "unknown kind")

module _ (is_mount : FilePath → Bool) (due : String → ℕ → Result Bool) (root : FilePath) (now : ℕ)
    (fs : Fs) where
  -- A link or a mount point at or below the path.
  pub any_foreign : Fs → FilePath → Bool
  any_foreign [] path = false
  any_foreign ((p, n) ∷ rest) path =
      under path p && (kind_is_link n.kind || is_mount p) || any_foreign rest path

  classify : Entry → String → String → Scan → Result Scan
  classify e kind name s =
      if kind == "rollback"
      then (do
        created ← or_refuse e.created_at crash
        ok (record s { rollback = s.rollback ++ ((created, name) ∷ []) }))
      else (do
        expires ← or_refuse e.expires_at crash
        is_due ← due expires now
        ok (if is_due then record s { targets = s.targets ++ (name ∷ []) } else s))

  -- What stands at the registered path.
  examine : Entry → String → String → Scan → Result Scan
  examine e kind name s =
      let path = root // name in
      if not (exists fs path) && not (is_symlink fs path) then ok s else (do
        refuse_if (is_symlink fs path || not (parent path == root))
            (value_error "unsafe resolved target")
        refuse_if (is_dir fs path && any_foreign fs path)
            (value_error "symlink or mount inside artifact")
        classify e kind name s)

  step : Entry → Scan → Result Scan
  step e s = do
    name ← or_refuse e.name crash
    refuse_if (contains s.seen name || contains protected name || not (is_plain name))
        (value_error "unsafe or duplicate registered artifact")
    kind ← or_refuse e.kind crash
    allowed kind name
    examine e kind name (record s { seen = name ∷ s.seen })

  scan : List Entry → Scan → Result Scan
  scan [] s = ok s
  scan (e ∷ es) s = do s' ← step e s; scan es s'

  -- All due temporary artifacts, and the rollback points but for the three newest.
  chosen : Scan → List String
  chosen s = s.targets ++ names_of (drop 3 (sort newer s.rollback))

  unfoldable pub plan : List Entry → Result (List String)
  unfolding any_foreign classify examine step scan chosen sort insert_sorted names_of is_plain
      is_rollback_name is_temporary_name allowed
  plan entries = do
    s ← scan entries (record { targets = []; rollback = []; seen = [] })
    ok (sort le (chosen s))

-- ===== src/Fs.antt =====
-- The file system as the scripts see it through `pathlib`, `os` and `shutil`: nodes by path, the
-- queries, and the changes as they take effect when they succeed. What can fail is in `Script`.
-- A path lists its names innermost first. Links are followed at the last name of a path only.
pub mod Laws
use see_size.Base.{
  ℕ, zero, suc, ◌==◌, ◌<>◌, String, string_eq, list_eq, nat_eq, Bool, true, false, not, ◌&&◌,
  Option, none, some, List, [], ◌∷◌, if◌then◌else◌, is_some, length,
}
use see_size.Base.Dict.{Dict, lookup, insert, keep, erase, children}

abbrev pub FilePath : Type 0
FilePath = List String

-- `folder / name`
infixl 70 ◌//◌
abbrev pub ◌//◌ : FilePath → String → FilePath
p // n = n ∷ p

abbrev pub Bytes : Type 0
Bytes = List ℕ

pub data Kind : Type 0 where
  file : Bytes → Kind
  folder : Kind
  link : FilePath → Kind

pub record Node : Type 0 where
  pub kind : Kind
  pub uid : ℕ
  pub mode : ℕ
  pub mtime : ℕ

abbrev pub Fs : Type 0
Fs = Dict FilePath Node

abbrev hop : (FilePath → Option Node) → Node → Option Node
hop next n = elim n.kind [ link q ↦ next q | _ ↦ some n ]

-- `path.stat()`: what a path leads to. The kernel follows at most 40 links.
follow : ℕ → Fs → FilePath → Option Node
follow zero fs p = none
follow (suc fuel) fs p = elim (lookup p fs) [ none ↦ none | some n ↦ hop (follow fuel fs) n ]

unfoldable pub stat : Fs → FilePath → Option Node
unfolding follow
stat fs p = follow 41 fs p

abbrev pub kind_is_link : Kind → Bool
kind_is_link (link q) = true
kind_is_link _ = false

abbrev pub kind_is_file : Kind → Bool
kind_is_file (file b) = true
kind_is_file _ = false

abbrev pub kind_is_folder : Kind → Bool
kind_is_folder folder = true
kind_is_folder _ = false

abbrev pub holds : (Node → Bool) → Option Node → Bool
holds test none = false
holds test (some n) = test n

-- `path.is_symlink()`
abbrev pub is_symlink : Fs → FilePath → Bool
is_symlink fs p = holds (λ n. kind_is_link n.kind) (lookup p fs)

-- `path.exists()`
abbrev pub exists : Fs → FilePath → Bool
exists fs p = is_some (stat fs p)

-- `path.is_file()`
abbrev pub is_file : Fs → FilePath → Bool
is_file fs p = holds (λ n. kind_is_file n.kind) (stat fs p)

-- `path.is_dir()`
abbrev pub is_dir : Fs → FilePath → Bool
is_dir fs p = holds (λ n. kind_is_folder n.kind) (stat fs p)

abbrev pub bytes_of : Node → Option Bytes
bytes_of n = elim n.kind [ file b ↦ some b | _ ↦ none ]

-- The bytes of a regular file, at a path that is no link.
abbrev pub node_content : Option Node → Option Bytes
node_content none = none
node_content (some n) = bytes_of n

abbrev pub content : Fs → FilePath → Option Bytes
content fs p = node_content (lookup p fs)

-- What `path.read_bytes()` returns.
abbrev pub content_at : Fs → FilePath → Option Bytes
content_at fs p = node_content (stat fs p)

-- `path.stat().st_uid == uid`, where the path leads somewhere.
abbrev pub owned_by : ℕ → Fs → FilePath → Bool
owned_by uid fs p = holds (λ n. n.uid == uid) (stat fs p)

-- `str(path)`
unfoldable pub path_text : FilePath → String
path_text [] = ""
path_text (n ∷ p) = path_text p <> "/" <> n

-- `path.parent`, `path.name`
abbrev pub parent : FilePath → FilePath
parent [] = []
parent (n ∷ p) = p

abbrev pub name : FilePath → String
name [] = ""
name (n ∷ p) = n

-- `path.stat().st_size`
abbrev pub size : Node → ℕ
size n = elim n.kind [ file b ↦ length b | _ ↦ 0 ]

-- A folder or anything below it.
unfoldable pub under : FilePath → FilePath → Bool
under d [] = d == []
under d (n ∷ p) = if d == n ∷ p then true else under d p

-- `shutil.rmtree(path)`
unfoldable pub remove_tree : FilePath → Fs → Fs
remove_tree d = keep (λ p. not (under d p))

abbrev written : Bytes → ℕ → ℕ → ℕ → Option Node → Node
written b uid mode now none = record { kind = file b; uid = uid; mode = mode; mtime = now }
written b uid mode now (some n) = record n { kind = file b; mtime = now }

-- A file written whole: a new one gets the owner and the mode, an old one keeps its own.
unfoldable pub put_file : FilePath → Bytes → ℕ → ℕ → ℕ → Fs → Fs
put_file p b uid mode now fs = insert p (written b uid mode now (lookup p fs)) fs

-- `path.chmod(mode)`
unfoldable pub set_mode : FilePath → ℕ → Fs → Fs
set_mode p mode fs = elim (lookup p fs) [
  | none ↦ fs
  | some n ↦ insert p (record n { mode = mode }) fs
]

-- `os.chown(path, uid, gid)`
unfoldable pub set_owner : FilePath → ℕ → Fs → Fs
set_owner p uid fs = elim (lookup p fs) [
  | none ↦ fs
  | some n ↦ insert p (record n { uid = uid }) fs
]

-- `path.replace(destination)` of a file.
unfoldable pub move_file : FilePath → FilePath → Fs → Fs
move_file p q fs = elim (lookup p fs) [ none ↦ fs | some n ↦ insert q n (erase p fs) ]

-- The path after its folder `p` has become `q`.
unfoldable pub shift : FilePath → FilePath → FilePath → FilePath
shift p q [] = if p == [] then q else []
shift p q (n ∷ r) = if p == n ∷ r then q else n ∷ shift p q r

-- `path.replace(destination)` of a folder, to a place where nothing stands.
unfoldable pub move_tree : FilePath → FilePath → Fs → Fs
move_tree p q [] = []
move_tree p q ((r, n) ∷ fs) = (shift p q r, n) ∷ move_tree p q fs

-- Nothing stands at the path or below it.
unfoldable pub vacant : FilePath → Fs → Bool
vacant q [] = true
vacant q ((r, n) ∷ fs) = not (under q r) && vacant q fs

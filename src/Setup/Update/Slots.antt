-- ===== src/Setup/Update/Slots.antt =====
-- The files that an update works with, and which actions leave them alone.
use see_size.Base.{String, string_eq, list_eq, ◌≡◌, sym, subst, true, arith, contains}
use see_size.Fs.{FilePath, ◌//◌, Bytes, under}
use see_size.Fs.Laws.{under_self}
use see_size.Script.{World, Action}
use see_size.Script.Rules.{Keeps, Keeps-and, Triple-weaken, Keeps-all, Keeps-some}
use see_size.Script.Frame.{Holds}
use see_size.Setup.{root, package_files, agent_program, enroll_program}
use see_size.Setup.Replace.{marker}
use see_size.Setup.Update.{previous_of}

-- A file of the package.
abbrev pub InPackage : String → Type 0
InPackage n = contains package_files n ≡ true

-- The four files of the package.
pub package_cases :
    (P : String → Type 0)
    → P agent_program
    → P enroll_program
    → P "agent-release.json"
    → P "agent-setup.py"
    → (n : String) → InPackage n
    → P n
package_cases P a b c d n i = elim (string_eq.dec n agent_program) [
  | yes e ↦ subst P (sym e) a
  | no ne ↦ elim (string_eq.dec n enroll_program) [
    | yes e ↦ subst P (sym e) b
    | no nf ↦ elim (string_eq.dec n "agent-release.json") [
      | yes e ↦ subst P (sym e) c
      | no ng ↦ elim (string_eq.dec n "agent-setup.py") [
        | yes e ↦ subst P (sym e) d
        | no nh ↦ absurd (ground arith)
      ]
    ]
  ]
]

-- The installed package, file by file.
abbrev pub Root : (String → Bytes) → World → Type 0
Root c w = (n : String) → InPackage n → Holds (root // n) (c n) w

-- Each file of the package is there.
abbrev pub Present : World → Type 0
Present w = (n : String) → InPackage n → (b : Bytes) × Holds (root // n) b w

-- The package in a folder, file by file.
abbrev pub Folder : FilePath → (String → Bytes) → World → Type 0
Folder d c w = (n : String) → InPackage n → Holds (d // n) (c n) w

abbrev pub Work : String → FilePath
Work s = root // s

-- The old files are saved, and the workspace is marked so that it stays.
pub record Saved (s : String) (old : String → Bytes) (mark : Bytes) (w : World) : Type 0 where
  pub previous : Folder (previous_of (Work s)) old w
  pub marked : Holds (marker (Work s)) mark w

-- What an action does not touch.
pub record LeavesRoot {A : Type 0} (act : Action A) : Type 0 where
  pub at : (q : FilePath) (b : Bytes) → under root q ≡ true → Keeps (Holds q b) act

under-root_child : (n : String) → under root (root // n) ≡ true
unfolding under
under-root_child n = ground (arith, under_self root)

under-root_deep : (d : String) (s n : String) → under root (root // s // d // n) ≡ true
unfolding under
under-root_deep d s n = ground (arith, under_self root)

module _ {A : Type 0} {act : Action A} (leaves : LeavesRoot act) where
  pub Root-Keeps : (c : String → Bytes) → Keeps (Root c) act
  Root-Keeps c = Keeps-all _ λ n. Keeps-all _ λ i. leaves.at (root // n) (c n) (under-root_child n)

  pub Folder-Keeps : (s d : String) (c : String → Bytes) → Keeps (Folder (Work s // d) c) act
  Folder-Keeps s d c =
      Keeps-all _ λ n. Keeps-all _ λ i. leaves.at (Work s // d // n) (c n) (under-root_deep d s n)

  pub marker-Keeps : (s : String) (mark : Bytes) → Keeps (Holds (marker (Work s)) mark) act
  marker-Keeps s mark =
      leaves.at (marker (Work s)) mark (unfold under in ground (arith, under_self root))

  pub Saved-Keeps :
      (s : String) (old : String → Bytes) (mark : Bytes) → Keeps (Saved s old mark) act
  Saved-Keeps s old mark =
      Triple-weaken (λ w k. (k.previous, k.marked))
        (λ a w k. record { previous = k.0; marked = k.1 })
        (λ e w k. record { previous = k.0; marked = k.1 })
        (Keeps-and (Folder-Keeps s "previous" old) (marker-Keeps s mark))

  pub Present-Keeps : Keeps Present act
  Present-Keeps =
      Keeps-all _
        λ n. Keeps-all _ λ i. Keeps-some _ λ b. leaves.at (root // n) b (under-root_child n)

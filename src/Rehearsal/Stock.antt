-- ===== src/Rehearsal/Stock.antt =====
-- The state of the lab's programs, and what leaves it alone.
use package.text.Mathlib.TextEquality.{eq_iff}
use see_size.Base.{String, ◌≡◌, ◌≢◌, list_eq, string_eq, nat_eq, Option, none, some, List, arith}
use see_size.Base.Dict.{lookup}
use see_size.Fs.{FilePath, Bytes, Node, node_content}
use see_size.Fs.Laws.{apart_by_length}
use see_size.Script.{Machine, World, Action}
use see_size.Script.Files.{spawn}
use see_size.Script.Rules.{Keeps, Triple-bind, Keeps-and, Keeps-pure, Keeps-raise_if}
use see_size.Script.Frame.{Holds, read-Keeps}
use see_size.Script.Frame.Nodes.{copy_file-NodeAt, chmod-NodeAt, rename-NodeAt, spawn-NodeAt}
use see_size.Script.Frame.Sure.{Fine}
use see_size.Setup.Cache.Slots.{refuse-Keeps}
use see_size.Setup.Register.Safety.{Untouched}
use see_size.Rollout.{binary}
use see_size.Rehearsal.{Vm, lab, original, next_of, replace, digest}
use see_size.Rehearsal.Replace.{Free, Regular, replace_clean}

-- One of the lab's programs: it is there, no staging file is, and the original one is kept.
abbrev pub Stock : String → Bytes → World → Type 0
Stock c o w = (Regular (binary lab c) w × Free (next_of c) w) × Holds (binary original c) o w

abbrev pub Stocks : Bytes → Bytes → World → Type 0
Stocks hub agent w = Stock "hub" hub w × Stock "agent" agent w

-- Both programs are the original ones.
abbrev pub Restored : Bytes → Bytes → World → Type 0
Restored hub agent w = Holds (binary lab "hub") hub w × Holds (binary lab "agent") agent w

-- Commands that leave the files of a program alone.
abbrev pub Leaves : Machine → String → Type 0
Leaves m c = Untouched m (binary lab c) × Untouched m (next_of c) × Untouched m (binary original c)

module _ (m : Machine) (vm : Vm) (fine : Fine m) where
  -- An exchange leaves all paths alone but the program and its staging file.
  pub replace-NodeAt :
      (q : FilePath) (P : Option Node → Type 0) (c : String) (folder : FilePath)
      → q ≢ next_of c
      → q ≢ binary lab c
      → Keeps (λ w. P (lookup q w.fs)) (replace m vm c folder)
  unfolding replace digest
  replace-NodeAt q P c folder other apart = Triple-bind (refuse-Keeps _ _ _) λ _.
      Triple-bind (copy_file-NodeAt m q P _ _ other) λ _.
        Triple-bind (chmod-NodeAt m q P _ 0o700 other) λ _.
          Triple-bind (Triple-bind (read-Keeps m _) λ x. Keeps-pure _) λ copied.
            Triple-bind (Triple-bind (read-Keeps m _) λ x. Keeps-pure _) λ wanted.
              Triple-bind (Keeps-raise_if _ _)
                λ _. rename-NodeAt m q P (next_of c) (binary lab c) other apart

  -- What leaves the three paths alone leaves the program's state alone.
  pub Stock-Keeps :
      {A : Type 0} {a : Action A} (c : String) (o : Bytes)
      → ((P : Option Node → Type 0) → Keeps (λ w. P (lookup (binary lab c) w.fs)) a)
      → ((P : Option Node → Type 0) → Keeps (λ w. P (lookup (next_of c) w.fs)) a)
      → ((P : Option Node → Type 0) → Keeps (λ w. P (lookup (binary original c) w.fs)) a)
      → Keeps (Stock c o) a
  Stock-Keeps c o h g k =
      Keeps-and (Keeps-and (h (λ n. (b : Bytes) × (node_content n ≡ some b))) (g (λ n. n ≡ none)))
        (k (λ n. node_content n ≡ some o))

  pub spawn-Stock :
      (c : String) (o : Bytes)
      → Leaves m c
      → (args : List String) → Keeps (Stock c o) (spawn m args)
  spawn-Stock c o calm args =
      Stock-Keeps c o (λ P. spawn-NodeAt m _ P calm.0 args) (λ P. spawn-NodeAt m _ P calm.1 args)
        (λ P. spawn-NodeAt m _ P calm.2 args)

  -- The other program's state is left alone.
  pub Apart : String → String → Type 0
  Apart c d =
      (binary lab c ≢ next_of d)
      × (binary lab c ≢ binary lab d)
      × (next_of c ≢ next_of d)
      × (next_of c ≢ binary lab d)

  original_ne_lab : (c d : String) → binary original c ≢ next_of d
  original_ne_lab c d = apart_by_length _ _ (omega arith)

  original_ne_program : (c d : String) → binary original c ≢ binary lab d
  original_ne_program c d = apart_by_length _ _ (omega arith)

  pub other-Stock :
      (c d : String) (o : Bytes) (folder : FilePath)
      → Apart c d
      → Keeps (Stock c o) (replace m vm d folder)
  unfolding Apart
  other-Stock c d o folder apart =
      Stock-Keeps c o (λ P. replace-NodeAt _ P d folder apart.0 apart.1)
        (λ P. replace-NodeAt _ P d folder apart.2 apart.3)
        (λ P. replace-NodeAt _ P d folder (original_ne_lab c d) (original_ne_program c d))

  pub own-Stock :
      (c : String) (o : Bytes) (folder : FilePath)
      → binary lab c ≢ next_of c
      → Keeps (Stock c o) (replace m vm c folder)
  own-Stock c o folder apart = Keeps-and (replace_clean m vm fine c folder apart) (
      replace-NodeAt _ (λ n. node_content n ≡ some o) c folder (original_ne_lab c c)
        (original_ne_program c c))

  pub hub-Apart : Apart "hub" "agent"
  unfolding Apart
  hub-Apart = (
    λ h.
        ground (
          arith,
          eq_iff "seesize-hub-linux-amd64" "seesize-agent-linux-amd64.production-test-next",
        ),
    λ h. ground (arith, eq_iff "seesize-hub-linux-amd64" "seesize-agent-linux-amd64"),
    λ h. ground (
      arith,
      eq_iff "seesize-hub-linux-amd64.production-test-next"
          "seesize-agent-linux-amd64.production-test-next",
    ),
    λ h.
        ground (
          arith,
          eq_iff "seesize-hub-linux-amd64.production-test-next" "seesize-agent-linux-amd64",
        ),
  )

  pub agent-Apart : Apart "agent" "hub"
  unfolding Apart
  agent-Apart = (
    λ h.
        ground (
          arith,
          eq_iff "seesize-agent-linux-amd64" "seesize-hub-linux-amd64.production-test-next",
        ),
    λ h. ground (arith, eq_iff "seesize-agent-linux-amd64" "seesize-hub-linux-amd64"),
    λ h. ground (
      arith,
      eq_iff "seesize-agent-linux-amd64.production-test-next"
          "seesize-hub-linux-amd64.production-test-next",
    ),
    λ h.
        ground (
          arith,
          eq_iff "seesize-agent-linux-amd64.production-test-next" "seesize-hub-linux-amd64",
        ),
  )

  pub hub_ne_next : binary lab "hub" ≢ next_of "hub"
  hub_ne_next h =
      ground
        (arith, eq_iff "seesize-hub-linux-amd64" "seesize-hub-linux-amd64.production-test-next")

  pub agent_ne_next : binary lab "agent" ≢ next_of "agent"
  agent_ne_next h =
      ground
        (arith, eq_iff "seesize-agent-linux-amd64" "seesize-agent-linux-amd64.production-test-next")

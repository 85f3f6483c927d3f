-- ===== src/Setup/Preflight.antt =====
-- scripts/agent-setup.py: `preflight`.
use see_size.Base.{
  ℕ, ◌*◌, ◌^◌, ◌==◌, nat_eq, string_eq, String, Bool, true, false, not, ◌||◌, none, some, List, [],
  ◌∷◌, ltb, eqb, if◌then◌else◌,
}
use see_size.Base.Text.{codes, split_lines, after}
use see_size.Fs.{FilePath, ◌//◌}
use see_size.Script.{Machine, Action, value_error, ◌>>=◌, ◌>>◌, raise_if, each}
use see_size.Script.Files.{read}

-- An optional quote, and then the end.
abbrev quoted_end : List ℕ → Bool
quoted_end [] = true
quoted_end (c ∷ []) = eqb c b'"'
quoted_end _ = false

abbrev names_system : String → List ℕ → Bool
names_system s l = elim (after (codes s) l) [ none ↦ false | some rest ↦ quoted_end rest ]

abbrev unquoted : List ℕ → List ℕ
unquoted [] = []
unquoted (c ∷ s) = if eqb c b'"' then s else c ∷ s

-- `ID="?(ubuntu|debian)"?`
is_supported_id : List ℕ → Bool
is_supported_id l = elim (after (codes "ID=") l) [
  | none ↦ false
  | some rest ↦ names_system "ubuntu" (unquoted rest) || names_system "debian" (unquoted rest)
]

any_line : List (List ℕ) → Bool
any_line [] = false
any_line (l ∷ ls) = is_supported_id l || any_line ls

abbrev os_release : FilePath
os_release = [] // "etc" // "os-release"

module _ (m : Machine) where
  unfoldable pub preflight : Action (Unit {0})
  unfolding is_supported_id any_line after split_lines
  preflight = do
    raise_if (not (m.euid == 0))
        (value_error "Run installation with sudo; no sudo password is collected by this tool")
    raise_if (not (m.system == "Linux") || not (m.architecture == "x86_64"))
        (value_error "Linux x86_64 required")
    osinfo ← read m os_release
    raise_if (not (any_line (split_lines osinfo))) (value_error "Only Ubuntu/Debian supported")
    each ("systemctl" ∷ "useradd" ∷ "runuser" ∷ []) (λ command.
        raise_if (not (m.which command)) (value_error "Required system command missing"))
    λ w.
        raise_if (ltb (m.free_bytes w.tick) (512 * 1024 ^ 2))
          (value_error "At least 512 MiB free required") w

-- ===== src/Setup/Register/Unit.antt =====
-- The unit that `register` writes is one that `update` accepts.
use mathlib.Core.List.{append_assoc}
use see_size.Base.{
  ℕ, String, ◌==◌, string_eq, list_eq, ◌≡◌, refl, ◌≢◌, sym, ap, ◌∙◌, Bool, true, false, not, some,
  List, [], ◌∷◌, ◌++◌, All, arith,
}
use see_size.Base.Text.{codes, all_of, after, splitlines, is_break}
use see_size.Fs.{path_text, Bytes}
use see_size.Script.{Machine, ok}
use see_size.Setup.Checks.Manifest.{Connection}
use see_size.Setup.Checks.Hub.Plain.{is_plain_char}
use see_size.Setup.Update.{exec_starts, agent_args, check_unit}
use see_size.Setup.Register.{spaced, unit_head, unit_tail, unit_text}

-- A word that has nothing for a shell to read.
abbrev pub IsWord : String → Type 0
IsWord s = (s ≢ "") × (all_of is_plain_char (codes s) ≡ true)

-- `shlex.split` takes plain words apart at the spaces.
abbrev pub SplitsWords : Machine → Type 0
SplitsWords m = (ws : List String) → All IsWord ws → m.shlex_split (spaced ws) ≡ some ws

abbrev no_break : ℕ → Bool
no_break c = not (is_break c)

splitlines-line :
    (l s : List ℕ) → all_of no_break l ≡ true → splitlines (l ++ (10 ∷ s)) ≡ l ∷ splitlines s
unfolding splitlines all_of
splitlines-line [] s h = refl
splitlines-line (c ∷ l) s h = ground (arith, splitlines-line l s)

all_of-append :
    (p : ℕ → Bool) (s t : List ℕ) → all_of p s ≡ true → all_of p t ≡ true → all_of p (s ++ t) ≡ true
unfolding all_of
all_of-append p [] t h k = k
all_of-append p (c ∷ s) t h k = ground (arith, all_of-append p s t)

plain-no_break : (s : List ℕ) → all_of is_plain_char s ≡ true → all_of no_break s ≡ true
unfolding all_of
plain-no_break [] h = refl
plain-no_break (c ∷ s) h = ground (arith, plain-no_break s)

spaced-no_break : (ws : List String) → All IsWord ws → all_of no_break (spaced ws) ≡ true
unfolding spaced all_of
spaced-no_break [] h = refl
spaced-no_break (w ∷ []) h = plain-no_break (codes w) h.0.1
spaced-no_break (w ∷ v ∷ ws) h =
    all_of-append no_break (codes w) _ (plain-no_break (codes w) h.0.1)
      (spaced-no_break (v ∷ ws) h.1)

starts-head :
    (rest : Bytes) → exec_starts (splitlines (unit_head ++ rest)) ≡ exec_starts (splitlines rest)
unfolding exec_starts splitlines after
starts-head rest = refl

starts-tail : exec_starts (splitlines unit_tail) ≡ []
unfolding exec_starts splitlines after
starts-tail = refl

starts-line :
    (l rest : Bytes)
    → exec_starts ((codes "ExecStart=" ++ l) ∷ splitlines rest) ≡ l ∷ exec_starts (splitlines rest)
unfolding exec_starts after
starts-line l rest = refl

starts-unit :
    (l : Bytes)
    → all_of no_break l ≡ true
    → exec_starts (splitlines (unit_head ++ (codes "ExecStart=" ++ (l ++ (10 ∷ unit_tail)))))
      ≡ l ∷ []
unfolding all_of
starts-unit l h =
    starts-head _
    ∙ ap (λ (t : Bytes). exec_starts (splitlines t))
        (sym (append_assoc (codes "ExecStart=") l (10 ∷ unit_tail)))
    ∙ ap exec_starts (
        splitlines-line (codes "ExecStart=" ++ l) unit_tail
          (all_of-append no_break (codes "ExecStart=") l literal h))
    ∙ starts-line l unit_tail
    ∙ ap (λ (t : List Bytes). l ∷ t) starts-tail
  where
    literal : all_of no_break (codes "ExecStart=") ≡ true
    literal = refl

pub plain-IsWord : (s : String) → s == "" ≡ false → all_of is_plain_char (codes s) ≡ true → IsWord s
plain-IsWord s h k = (λ e. ground arith, k)

module _ (m : Machine) where
  agent_args-IsWord :
      (c : Connection) → IsWord c.hub → IsWord c.identity → All IsWord (agent_args m c)
  unfolding agent_args all_of string_eq path_text
  agent_args-IsWord c hub identity = (
    plain-IsWord _ refl refl,
    (
      plain-IsWord "-hub" refl refl,
      (
        hub,
        (
          plain-IsWord "-id" refl refl,
          (
            identity,
            (
              plain-IsWord "-token-file" refl refl,
              (
                plain-IsWord _ refl refl,
                (plain-IsWord "-interval" refl refl, (plain-IsWord "10s" refl refl, tt)),
              ),
            ),
          ),
        ),
      ),
    ),
  )

  check_unit-ok :
      (expected : List String) (text start : Bytes)
      → exec_starts (splitlines text) ≡ start ∷ []
      → m.shlex_split start ≡ some expected
      → check_unit m expected text ≡ ok tt
  unfolding check_unit
  check_unit-ok expected text start h k = ground arith

  -- The unit of a connection with plain words starts the agent with the arguments that `update`
  -- expects, and with no others. `shlex.split` takes plain words apart at the spaces.
  pub check_unit-unit_text :
      (c : Connection)
      → SplitsWords m
      → IsWord c.hub
      → IsWord c.identity
      → check_unit m (agent_args m c) (unit_text m c) ≡ ok tt
  unfolding unit_text
  check_unit-unit_text c splits hub identity =
      let words = agent_args-IsWord c hub identity in
      check_unit-ok (agent_args m c) _ (spaced (agent_args m c))
        (starts-unit (spaced (agent_args m c)) (spaced-no_break (agent_args m c) words))
        (splits (agent_args m c) words)

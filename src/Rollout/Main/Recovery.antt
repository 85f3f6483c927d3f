-- ===== src/Rollout/Main/Recovery.antt =====
-- What the rollout's status says of the programs.
use text.Mathlib.TextEquality.{eq_iff}
use see_size.Base.{
  string_eq, list_eq, String, ◌≡◌, ◌≢◌, ◌⊎◌, sym, ap, Bool, true, false, none, some, arith, length,
  if◌then◌else◌, inl, inr,
}
use see_size.Base.Dict.{Dict}
use see_size.Fs.{FilePath, ◌//◌, Bytes}
use see_size.Script.{Machine, World, Exc, is_exception, Action, Result, ok, err, pure, ◌>>=◌}
use see_size.Script.Rules.{
  quiet, Triple-some, Outcome, Triple, Keeps, Triple-bind, Triple-weaken, Triple-each, Triple-pure,
  Triple-and, Keeps-and, Keeps-pure, Keeps-some, Keeps-fact, Keeps-raise_if,
}
use see_size.Script.Frame.{Holds}
use see_size.Script.Frame.Keep.{copy_file-Holds}
use see_size.Setup.Register.Safety.{Untouched, run-Untouched}
use see_size.Rollout.{Site, root, bundle, binary, next_of, switch}
use see_size.Rollout.Safety.{Verified, switch_program_lem}
use see_size.Rollout.Keep.{
  user_service-Holds, state-Holds, configs-Holds, observe-Holds, api_check-Holds, switch-Holds,
}
use see_size.Rollout.Main.{
  Status, running, passed, rolled_back, aborted, Ending, old_hash, new_hash, attempt,
  check_inactive, stop_timer, prepare, change_over, roll_back, after_prepare, ended_back,
  after_change, on_change, on_prepare, rollout,
}

-- An attempt always returns, with what the action ends with.
pub Triple-attempt :
    {P : World → Type 0} {a : Action (Unit {0})} {Q : Unit {0} → World → Type 0}
    {E F : Exc → World → Type 0}
    → Triple P a Q E
    → Triple P (attempt a) (λ r w. Outcome Q E (r, w)) F
unfolding attempt
Triple-attempt t = record { run = λ w k. t.run w k }

abbrev pub hub : FilePath
hub = binary root "hub"

abbrev pub agent : FilePath
agent = binary root "agent"

hub_ne_agent : hub ≢ agent
hub_ne_agent = ground (arith, eq_iff "seesize-hub-linux-amd64" "seesize-agent-linux-amd64")

hub_ne_next_agent : hub ≢ next_of "agent"
hub_ne_next_agent =
    ground (arith, eq_iff "seesize-hub-linux-amd64" "seesize-agent-linux-amd64.secret-fix-next")

agent_ne_next_hub : agent ≢ next_of "hub"
agent_ne_next_hub =
    ground (arith, eq_iff "seesize-agent-linux-amd64" "seesize-hub-linux-amd64.secret-fix-next")

-- A regular file stands there.
abbrev Some : FilePath → World → Type 0
Some p w = (b : Bytes) × Holds p b w

Some-Keeps :
    {A : Type 0} {a : Action A} (p : FilePath)
    → ((b : Bytes) → Keeps (Holds p b) a)
    → Keeps (Some p) a
Some-Keeps p h = Keeps-some (λ b. Holds p b) h

Verified-Keeps :
    {A : Type 0} {a : Action A} (m : Machine) (p : FilePath) (h : String)
    → ((b : Bytes) → Keeps (Holds p b) a)
    → Keeps (Verified m p h) a
Verified-Keeps m p h k = Keeps-some (λ b w. Holds p b w × (m.sha256 b ≡ h)) (λ b. Keeps-fact (k b))

-- Both programs have these hashes.
abbrev pub Pair : Machine → String → String → World → Type 0
Pair m h a w = Verified m hub h w × Verified m agent a w

-- What a status says of the programs; `running` is left by an interrupt or a roll back that fails.
abbrev pub After : Machine → Bytes → Bytes → Status → World → Type 0
After m old_hub old_agent running w = Unit
After m old_hub old_agent passed w = Pair m (new_hash "hub") (new_hash "agent") w
After m old_hub old_agent rolled_back w = Pair m (old_hash "hub") (old_hash "agent") w
After m old_hub old_agent aborted w = Holds hub old_hub w × Holds agent old_agent w

module _ (m : Machine) (site : Site) (hub_calm : Untouched m hub)
    (agent_calm : Untouched m agent) where
  -- Both programs are there, whatever they are.
  Both : World → Type 0
  Both w = Some hub w × Some agent w

  prepare-Holds :
      (q : FilePath) {b : Bytes}
      → Untouched m q
      → q ≢ bundle // "upgrade-prepare.py"
      → Keeps (Holds q b) (prepare m site)
  unfolding prepare stop_timer check_inactive
  prepare-Holds q {b} calm other =
      Triple-bind
        (Triple-each (λ _. Holds q b)
          (λ t _. Triple-bind (user_service-Holds m site q calm _) λ _. Keeps-pure tt) _)
        λ _.
          Triple-bind
            (Triple-each (λ _. Holds q b)
              (λ s _. Triple-bind (state-Holds m site q calm s) λ now. Keeps-raise_if _ _) _)
            λ _. Triple-bind (run-Untouched m q calm _) λ _. copy_file-Holds m q _ _ other

  switch-Triple :
      (c : String) (folder : FilePath) (expected : String)
      → Untouched m (binary root c)
      → Triple
          (Some (binary root c))
          (switch m site c folder expected)
          (λ _. Verified m (binary root c) expected)
          (λ _. Some (binary root c))
  switch-Triple c folder expected calm =
      Triple-some λ b. Triple-weaken (λ w k. k) (λ _ w k. k) (λ _ w k. still w b k) (base b)
    where
      base :
          (b : Bytes)
          → Triple
              (Holds (binary root c) b)
              (switch m site c folder expected)
              (λ _. Verified m (binary root c) expected)
              (λ _ v. Holds (binary root c) b v ⊎ Verified m (binary root c) expected v)
      base b = record { run = λ w k. switch_program_lem m site c folder expected b w calm k }

      still :
          (v : World) (b : Bytes)
          → Holds (binary root c) b v ⊎ Verified m (binary root c) expected v
          → Some (binary root c) v
      still v b (inl h) = (b, h)
      still v b (inr (d, (h, good))) = (d, h)

  still_there : (p : FilePath) (h : String) (w : World) → Verified m p h w → Some p w
  still_there p h w (b, (k, good)) = (b, k)

  -- The Hub first, then the agent, with checks that write nothing.
  module _ (h a : String) where
    hub_done :
        (folder : FilePath)
        → Triple Both
            (switch m site "hub" folder h)
            (λ _ w. Verified m hub h w × Some agent w)
            (λ _. Both)
    unfolding Both
    hub_done folder = Triple-and (switch-Triple "hub" folder h hub_calm) (
        Some-Keeps agent (λ b.
          switch-Holds m site agent agent_calm "hub" folder h agent_ne_next_hub
            (λ e. hub_ne_agent (sym e))))

    agent_done :
        (folder : FilePath)
        → Triple
            (λ w. Verified m hub h w × Some agent w)
            (switch m site "agent" folder a)
            (λ _. Pair m h a)
            (λ _. Both)
    unfolding Both
    agent_done folder =
        Triple-weaken (λ w k. k) (λ _ w k. k) (λ _ w k. (still_there hub h w k.0, k.1))
          (Triple-and
            (Verified-Keeps m hub h (λ b.
              switch-Holds m site hub hub_calm "agent" folder a hub_ne_next_agent hub_ne_agent))
            (switch-Triple "agent" folder a agent_calm))

    half_kept :
        {A : Type 0} {act : Action A}
        → ((b : Bytes) → Keeps (Holds hub b) act)
        → ((b : Bytes) → Keeps (Holds agent b) act)
        → Triple
            (λ w. Verified m hub h w × Some agent w)
            act
            (λ _ w. Verified m hub h w × Some agent w)
            (λ _. Both)
    unfolding Both
    half_kept s t =
        Triple-weaken (λ w k. k) (λ _ w k. k) (λ _ w k. (still_there hub h w k.0, k.1))
          (Keeps-and (Verified-Keeps m hub h s) (Some-Keeps agent t))

    checks_keep :
        {A : Type 0} {act : Action A}
        → ((b : Bytes) → Keeps (Holds hub b) act)
        → ((b : Bytes) → Keeps (Holds agent b) act)
        → Triple (Pair m h a) act (λ _. Pair m h a) (λ _. Both)
    unfolding Both
    checks_keep s t =
        Triple-weaken (λ w k. k) (λ _ w k. k)
          (λ _ w k. (still_there hub h w k.0, still_there agent a w k.1))
          (Keeps-and (Verified-Keeps m hub h s) (Verified-Keeps m agent a t))

  change_over-Triple :
      (before : Dict String String)
      → Triple Both
          (change_over m site before)
          (λ _. Pair m (new_hash "hub") (new_hash "agent"))
          (λ _. Both)
  unfolding change_over
  change_over-Triple before =
      let h = new_hash "hub" in
      let a = new_hash "agent" in
      Triple-bind (hub_done h a _) λ _.
        Triple-bind
          (half_kept h a (λ b. observe-Holds m site hub _) (λ b. observe-Holds m site agent _))
          λ _.
            Triple-bind
              (half_kept h a (λ b. api_check-Holds m site hub) (λ b. api_check-Holds m site agent))
              λ _. Triple-bind (agent_done h a _) λ _.
                Triple-bind
                  (checks_keep h a (λ b. observe-Holds m site hub _)
                    (λ b. observe-Holds m site agent _))
                  λ _.
                    Triple-bind
                      (checks_keep h a (λ b. api_check-Holds m site hub)
                        (λ b. api_check-Holds m site agent))
                      λ _.
                        Triple-bind
                          (checks_keep h a (λ b. configs-Holds m site hub hub_calm)
                            (λ b. configs-Holds m site agent agent_calm))
                          λ now. checks_keep h a (λ b. Keeps-raise_if _ _) (λ b. Keeps-raise_if _ _)

  roll_back-Triple :
      Triple Both (roll_back m site) (λ _. Pair m (old_hash "hub") (old_hash "agent")) (λ _ w. Unit)
  unfolding roll_back Both
  roll_back-Triple =
      let h = old_hash "hub" in
      let a = old_hash "agent" in
      Triple-bind
        (quiet (
          Triple-and
            (Some-Keeps hub (λ b.
              switch-Holds m site hub hub_calm "agent" bundle a hub_ne_next_agent hub_ne_agent))
            (switch-Triple "agent" bundle a agent_calm)))
        λ _.
          Triple-bind
            (quiet (
              Triple-and (switch-Triple "hub" bundle h hub_calm) (
                Verified-Keeps m agent a (λ b.
                  switch-Holds m site agent agent_calm "hub" bundle h agent_ne_next_hub
                    (λ e. hub_ne_agent (sym e))))))
            λ _.
              Triple-bind
                (quiet (
                  checks_keep h a (λ b. observe-Holds m site hub _)
                    (λ b. observe-Holds m site agent _)))
                λ _. quiet (
                  checks_keep h a (λ b. api_check-Holds m site hub)
                    (λ b. api_check-Holds m site agent))

  module _ (old_hub old_agent : Bytes) where
    abbrev Fits : Ending → World → Type 0
    Fits ending = After m old_hub old_agent ending.status

    back_Fits :
        (e : Exc) (r : Result (Unit {0}))
        → Triple
            (λ w. Outcome (λ _. Pair m (old_hash "hub") (old_hash "agent")) (λ _ v. Unit) (r, w))
            (pure (ended_back m site e r))
            Fits
            (λ _ w. ⊥)
    unfolding ended_back
    back_Fits e (ok u) = Triple-pure _ (λ w k. k)
    back_Fits e (err f) = Triple-pure _ (λ w k. tt)

    after_change-Triple : (e : Exc) → Triple Both (after_change m site e) Fits (λ _ w. ⊥)
    unfolding after_change
    after_change-Triple e = go (is_exception e)
      where
        go :
            (c : Bool)
            → Triple Both
                (if c
                  then (do back ← attempt (roll_back m site); pure (ended_back m site e back))
                  else pure (record { result = err e; status = running; error = none }))
                Fits
                (λ _ w. ⊥)
        go true = Triple-bind (Triple-attempt roll_back-Triple) λ r. back_Fits e r
        go false = Triple-pure _ (λ w k. tt)

    on_change-Triple :
        (r : Result (Unit {0}))
        → Triple
            (λ w. Outcome (λ _. Pair m (new_hash "hub") (new_hash "agent")) (λ _. Both) (r, w))
            (on_change m site r)
            Fits
            (λ _ w. ⊥)
    unfolding on_change
    on_change-Triple (ok u) = Triple-pure _ (λ w k. k)
    on_change-Triple (err e) = after_change-Triple e

    abbrev Before : World → Type 0
    Before w = Holds hub old_hub w × Holds agent old_agent w

    on_prepare-Triple :
        (before : Dict String String) (r : Result (Unit {0}))
        → Triple
            (λ w. Outcome (λ _. Before) (λ _. Before) (r, w))
            (on_prepare m site before r)
            Fits
            (λ _ w. ⊥)
    unfolding on_prepare after_prepare Both
    on_prepare-Triple before (ok u) =
        Triple-bind
          (Triple-attempt (
            Triple-weaken (λ w k. ((old_hub, k.0), (old_agent, k.1))) (λ _ w k. k) (λ _ w k. k)
              (change_over-Triple before)))
          λ r. on_change-Triple r
    on_prepare-Triple before (err e) = Triple-pure _ (λ w k. go (is_exception e) w k)
      where
        go :
            (c : Bool) (w : World)
            → Before w
            → Fits
                (if c
                  then record { result = err e; status = aborted; error = some e }
                  else record { result = err e; status = running; error = none })
                w
        go true w k = k
        go false w k = tt

    -- The `try` of the script with its handler always comes to an end that the report names. With the
    -- status `passed` both programs have the new hashes, with `rolled_back` both have the old ones,
    -- and with `aborted` they are as they were. Both are there before, and the commands do not write
    -- to them.
    pub rollout-After :
        (before : Dict String String) (w : World)
        → Holds hub old_hub w
        → Holds agent old_agent w
        → Outcome
            (λ ending v. After m old_hub old_agent ending.status v)
            (λ _ v. ⊥)
            (rollout m site before w)
    unfolding rollout
    rollout-After before w h a =
        (Triple-bind
            (Triple-attempt (
              Keeps-and (prepare-Holds hub hub_calm hub_apart)
                (prepare-Holds agent agent_calm agent_apart)))
            λ r. on_prepare-Triple before r).run
          w (h, a)
      where
        hub_apart : hub ≢ bundle // "upgrade-prepare.py"
        hub_apart e = omega (arith, ap (λ (p : FilePath). length p) e)

        agent_apart : agent ≢ bundle // "upgrade-prepare.py"
        agent_apart e = omega (arith, ap (λ (p : FilePath). length p) e)

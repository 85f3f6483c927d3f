-- ===== src/Rollout/Safety.antt =====
-- A program is replaced by one with the expected hash or not at all, and an observation that
-- returns has seen new samples.
use see_size.Base.{
  ◌≤◌, ℕ, zero, suc, ◌<◌, ◌==◌, nat_eq, string_eq, list_eq, String, ◌<>◌, ◌≡◌, refl, ◌≢◌, ◌⊎◌, inl,
  inr, true, false, not, ◌||◌, Option, none, some, List, [], ◌∷◌, arith, length,
}
use see_size.Fs.{FilePath, Bytes, exists, is_symlink}
use see_size.Fs.Laws.{content-exists, content_at-content}
use see_size.Script.{
  Result, ok, err, Machine, World, Exc, runtime_error, process_error, ◌>>=◌, ◌>>◌, raise_if,
}
use see_size.Script.Files.{spawn, chmod, rename, run_checked}
use see_size.Script.Rules.{
  quiet, Triple-never, Outcome, Triple, Triple-bind, Triple-weaken, Triple-given, Triple-some,
  Triple-pure, Triple-raise_if, Triple-beside, Keeps-and, Keeps-pure, Keeps-some, Keeps-fact,
  Keeps-if, Keeps-raise, lift-Keeps,
}
use see_size.Script.Frame.{change_lem, Holds, read_lem, copy_done}
use see_size.Script.Frame.Keep.{copy_file-Holds, chmod-Holds}
use see_size.Setup.Cache.{refuse}
use see_size.Setup.Replace.Atomic.{rename-Triple}
use see_size.Setup.Register.Safety.{Untouched, run-Untouched}
use see_size.Rollout.Keep.{health-Keeps}
use see_size.Rollout.{
  Site, root, binary, next_of, stalled, sha, user_service, sleep, health, latest, samples, observe,
  replace, switch,
}

-- Each sample is there and newer than the one before.
unfoldable pub Newer : Option ℕ → List (Option ℕ) → Type 0
Newer a [] = Unit
Newer (some a) (some b ∷ rest) = (a < b) × Newer (some b) rest
Newer _ (_ ∷ rest) = ⊥

stalled-Newer : (a : Option ℕ) (rest : List (Option ℕ)) → stalled (a ∷ rest) ≡ false → Newer a rest
unfolding stalled Newer
stalled-Newer a [] h = tt
stalled-Newer (some a) (some b ∷ rest) h =
    (ground arith, stalled-Newer (some b) rest (ground arith))
stalled-Newer (some a) (none ∷ rest) h = cc
stalled-Newer none (b ∷ rest) h = cc

-- A program with the expected hash stands at the path.
abbrev pub Verified : Machine → FilePath → String → World → Type 0
Verified m p expected w = (b : Bytes) × (Holds p b w × (m.sha256 b ≡ expected))

module _ (m : Machine) (site : Site) where
  -- The staging file is none that was there.
  refuse_collision :
      (c : String) {old : Bytes} (e : Exc)
      → Triple
          (Holds (binary root c) old)
          (refuse (λ fs. exists fs (next_of c) || is_symlink fs (next_of c)) e)
          (λ _ w. Holds (binary root c) old w × (binary root c ≢ next_of c))
          (λ _. Holds (binary root c) old)
  refuse_collision c {old} e = record {
    run = λ v k.
        (Triple-raise_if {P = λ u. u ≡ v} (exists v.fs (next_of c) || is_symlink v.fs (next_of c)) e
            {Q = λ _ w. Holds (binary root c) old w × (binary root c ≢ next_of c)}
            (λ u at _. rw at k)
            (λ u at free. rw at (
              k,
              λ same.
                  let there = content-exists (binary root c) v.fs {b = old} k in
                  let taken : exists v.fs (next_of c) ≡ true = rw (← same) there in ground arith,
            ))).run
          v refl;
  }

  -- The hash of the staged program is that of its bytes.
  sha_known :
      (p q : FilePath) {b old : Bytes}
      → Triple
          (λ w. Holds p b w × Holds q old w)
          (sha m site p)
          (λ h w. (Holds p b w × Holds q old w) × (h ≡ m.sha256 b))
          (λ _. Holds q old)
  unfolding sha
  sha_known p q {b} {old} =
      Triple-weaken (λ w k. k) (λ h w k. k) (λ _ w k. k.1)
        (Triple-bind (read_lem m p {P = λ w. Holds p b w × Holds q old w}) λ body.
          Triple-pure (m.sha256 body)
            (λ w k. (k.0, ground (arith, content_at-content p w.fs k.0.0, k.1))))

  replace-Triple :
      (c : String) (folder : FilePath) (expected : String) {old : Bytes}
      → Triple
          (Holds (binary root c) old)
          (replace m site c folder expected)
          (λ _. Verified m (binary root c) expected)
          (λ _. Holds (binary root c) old)
  unfolding replace sha
  replace-Triple c folder expected {old} =
      let target = binary root c in
      let temp = next_of c in
      Triple-bind (refuse_collision c _) λ _. Triple-given λ apart.
        Triple-bind
          (Triple-weaken (λ w k. (k, tt)) (λ _ w k. k) (λ _ w k. k)
            (Triple-beside (copy_file-Holds m target _ temp apart) (copy_done m _ temp)))
          λ _.
            Triple-weaken (λ w k. (k.1.0, (k.1.1, k.0))) (λ _ w k. k) (λ _ w k. k)
              (Triple-some λ b. checked b)
    where
      checked :
          (b : Bytes)
          → Triple
              (λ w. Holds (next_of c) b w × Holds (binary root c) old w)
              (do
                chmod m (next_of c) 0o700
                hash ← sha m site (next_of c)
                raise_if (not (hash == expected)) (runtime_error "Copy hash mismatch")
                rename m (next_of c) (binary root c))
              (λ _. Verified m (binary root c) expected)
              (λ _. Holds (binary root c) old)
      checked b =
          Triple-bind
            (Triple-weaken (λ w k. k) (λ _ w k. k) (λ _ w k. k.1)
              (Keeps-and (chmod-Holds m (next_of c) (next_of c) 0o700)
                (chmod-Holds m (binary root c) (next_of c) 0o700)))
            λ _. Triple-bind (sha_known (next_of c) (binary root c)) λ hash. Triple-given λ known.
              Triple-bind
                (Triple-raise_if (not (hash == expected)) _
                  {Q = λ _ w.
                    (Holds (next_of c) b w × Holds (binary root c) old w) × (m.sha256 b ≡ expected)}
                  (λ w k _. k.1) (λ w k good. (k, ground arith)))
                λ _. Triple-given λ good.
                  Triple-weaken (λ w k. k) (λ _ w k. (b, (k, good))) (λ _ w k. k)
                    (rename-Triple m (next_of c) (binary root c))

  -- Whatever call of `replace` fails or is interrupted, the program is then the old one; it returns
  -- only with a program that has the expected hash. A program is there before.
  pub replace_lem :
      (c : String) (folder : FilePath) (expected : String) (old : Bytes) (w : World)
      → Holds (binary root c) old w
      → Outcome
          (λ _. Verified m (binary root c) expected)
          (λ _. Holds (binary root c) old)
          (replace m site c folder expected w)
  replace_lem c folder expected old w k = (replace-Triple c folder expected).run w k

  -- Whatever call of `switch` fails or is interrupted, the program is then the old one or one with
  -- the expected hash, and after a return it has the expected hash. A program is there before, and
  -- the commands do not write to it.
  pub switch_program_lem :
      (c : String) (folder : FilePath) (expected : String) (old : Bytes) (w : World)
      → Untouched m (binary root c)
      → Holds (binary root c) old w
      → Outcome
          (λ _. Verified m (binary root c) expected)
          (λ _ v. Holds (binary root c) old v ⊎ Verified m (binary root c) expected v)
          (switch m site c folder expected w)
  unfolding switch user_service
  switch_program_lem c folder expected old w calm k =
      (Triple-bind
          (Triple-weaken (λ v h. h) (λ _ v h. h) (λ _ v h. inl h)
            (run-Untouched m (binary root c) calm _))
          λ _.
            Triple-bind
              (Triple-weaken (λ v h. h) (λ _ v h. h) (λ _ v h. inl h)
                (replace-Triple c folder expected))
              λ _.
                Triple-bind
                  (Triple-weaken (λ v h. h) (λ _ v h. h) (λ _ v h. inr h)
                    (Keeps-some
                      (λ (b : Bytes) v. Holds (binary root c) b v × (m.sha256 b ≡ expected))
                      (λ b. Keeps-fact (run-Untouched m (binary root c) calm _))))
                  λ _. Triple-pure tt (λ v h. h)).run
        w k

  -- The samples are what the database gave at ticks that go up, from this one.
  unfoldable pub Sampled : ℕ → List (Option ℕ) → Type 0
  Sampled i [] = Unit
  Sampled i (t ∷ ts) = (j : ℕ) × ((i ≤ j) × ((site.latest j ≡ ok t) × Sampled (suc j) ts))

  abbrev Later : ℕ → World → Type 0
  Later i v = i ≤ v.tick

  sleep-Later : (i : ℕ) → Triple (Later i) (sleep m site) (λ _. Later (suc i)) (λ _ v. Unit)
  unfolding sleep
  sleep-Later i = change_lem m (λ fs. fs) (λ v k. omega (arith, k)) (λ v k. tt)

  health-Later : (i : ℕ) → Triple (Later i) (health m site) (λ _. Later i) (λ _ v. Unit)
  health-Later i = quiet (health-Keeps m site (Later i) (λ v k. omega (arith, k)))

  latest_known :
      (i : ℕ)
      → Triple
          (Later i)
          (latest m site)
          (λ t v. (j : ℕ) × (Later j v × ((i ≤ j) × (site.latest j ≡ ok t))))
          (λ _ v. Unit)
  unfolding latest
  latest_known i = record { run = λ v k. go v k (site.latest v.tick) refl }
    where
      go :
          (v : World)
          → Later i v
          → (r : Result (Option ℕ)) → site.latest v.tick ≡ r
          → Outcome
              (λ t u. (j : ℕ) × (Later j u × ((i ≤ j) × (site.latest j ≡ ok t))))
              (λ _ u. Unit)
              (r, v)
      go v k (ok t) e = (v.tick, (omega arith, (k, e)))
      go v k (err x) e = tt

  samples-Sampled :
      (n i : ℕ)
      → Triple
          (Later i)
          (samples m site n)
          (λ ts v. Unit × ((length ts ≡ n) × Sampled (suc i) ts))
          (λ _ v. Unit)
  unfolding samples Sampled
  samples-Sampled zero i = Triple-pure [] (λ v h. (tt, (refl, tt)))
  samples-Sampled (suc n) i = Triple-bind (sleep-Later i) λ _.
      Triple-bind (health-Later (suc i)) λ _. Triple-bind (latest_known (suc i)) λ t.
        Triple-some λ j. Triple-given λ (late, read). Triple-bind (samples-Sampled n j) λ rest.
          Triple-given λ (count, others).
            Triple-pure (t ∷ rest)
              (λ v h. (tt, (ground (arith, count), (j, (late, (read, others))))))

  -- An observation that returns has four samples, which the database gave at four ticks that go up,
  -- none before the observation began; each is there and newer than the one before.
  pub observe-Newer :
      (name : String) (w : World)
      → Outcome
          (λ times v.
            (first : Option ℕ) × ((rest : List (Option ℕ)) × ((times ≡ first ∷ rest)
                × (length rest ≡ 3)
                × Newer first rest
                × Sampled w.tick times)))
          (λ _ v. Unit)
          (observe m site name w)
  unfolding observe Sampled
  observe-Newer name w =
      (Triple-bind (health-Later w.tick) λ _. Triple-bind (latest_known w.tick) λ first.
          Triple-some λ j. Triple-given λ (late, read). Triple-bind (samples-Sampled 3 j) λ rest.
            Triple-given λ (three, others).
              Triple-bind
                (Triple-raise_if {P = λ v. Unit} (stalled (first ∷ rest)) _
                  {Q = λ _ v. Unit × (stalled (first ∷ rest) ≡ false)} (λ v h _. tt)
                  (λ v h good. (tt, good)))
                λ _. Triple-given λ good. Triple-pure (first ∷ rest) (λ v h. (
                  first,
                  (rest, (refl, three, stalled-Newer first rest good, (j, (late, (read, others))))),
                ))).run
        w (omega arith)

  abbrev stop_command : String → List String
  stop_command c = "systemctl" ∷ "--user" ∷ "stop" ∷ ("seesize-" <> c) ∷ []

  -- The service was told to stop, and the staging file is still there.
  abbrev Halted : String → World → World → Type 0
  Halted c w v = (v.commands ≡ stop_command c ∷ w.commands) × (exists v.fs (next_of c) ≡ true)

  stop_lem :
      (c : String) (b : Bytes) (w : World)
      → Untouched m (next_of c)
      → Holds (next_of c) b w
      → Triple (λ v. v ≡ w) (run_checked m (stop_command c)) (λ _. Halted c w) (λ _. Halted c w)
  unfolding run_checked spawn
  stop_lem c b w calm k =
      Triple-bind {Q = λ _. Halted c w}
        (record {
          run = λ v at. rw at (
            refl,
            content-exists (next_of c) _ {b = b}
                (ground (arith, calm w.tick (stop_command c) w.fs, k)),
          );
        })
        λ r.
          Triple-bind (lift-Keeps r.ending)
            λ code. Keeps-if (code == 0) (Keeps-pure r.stdout) (Keeps-raise process_error)

  collide :
      (c : String) (w : World) (e : Exc)
      → Triple
          (Halted c w)
          (refuse (λ fs. exists fs (next_of c) || is_symlink fs (next_of c)) e)
          (λ _ v. ⊥)
          (λ _. Halted c w)
  collide c w e = record {
    run = λ v k.
        (Triple-raise_if {P = λ u. u ≡ v} (exists v.fs (next_of c) || is_symlink v.fs (next_of c)) e
            {Q = λ _ u. ⊥} (λ u at _. rw at k) (λ u at free. let there = k.1 in ground arith)).run
          v refl;
  }

  -- With the staging file of a switch that failed still there, the next switch of that program, the
  -- roll back's too, stops the service and fails: it does not start the service again. The staging
  -- file is a regular file that the commands do not write to.
  pub switch_collides :
      (c : String) (folder : FilePath) (expected : String) (b : Bytes) (w : World)
      → Untouched m (next_of c)
      → Holds (next_of c) b w
      → Outcome
          (λ _ v. ⊥)
          (λ _ v. v.commands ≡ stop_command c ∷ w.commands)
          (switch m site c folder expected w)
  unfolding switch user_service replace
  switch_collides c folder expected b w calm k =
      (Triple-weaken (λ v h. h) (λ _ v h. h) (λ _ v h. h.0)
          (Triple-bind (stop_lem c b w calm k)
            λ _. Triple-bind (Triple-bind (collide c w _) λ _. Triple-never) λ _. Triple-never)).run
        w refl

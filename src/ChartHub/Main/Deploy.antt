-- ===== src/ChartHub/Main/Deploy.antt =====
-- The parts of `main` around the exchange: what they leave of the live Hub and the candidate.
use text.Mathlib.TextEquality.{eq_iff}
use see_size.Base.{
  ℕ, String, ◌≡◌, ◌≢◌, ◌⊎◌, inl, inr, list_eq, string_eq, nat_eq, ◌==◌, not, List, [], ◌∷◌, arith,
  is_some,
}
use see_size.Base.Dict.{lookup}
use see_size.Fs.{FilePath, Bytes, Fs, content}
use see_size.Fs.Laws.{content_at-content}
use see_size.Fs.Laws.{apart_by_length}
use see_size.Script.{Machine, World, crash, process_error, ok, Action}
use see_size.Script.Files.{run_checked, spawn}
use see_size.Script.Rules.{
  Outcome-if, Triple, Keeps, Triple-bind, Triple-each, Triple-weaken, Triple-given, Triple-pure,
  Triple-raise_if, Keeps-and, Keeps-pure, Keeps-raise_if, Keeps-gets, lift_lem, Keeps-fact,
  Triple-if, Triple-raise,
}
use see_size.Script.Frame.{Holds, read_lem, stat_of_lem, change_lem}
use see_size.Script.Frame.Keep.{write-Holds}
use see_size.ChartHub.{Web, Report}
use see_size.ChartHub.Main.{
  Edition, charts, disks, Before, live, candidate, expected, check_before, digest, prepare_command,
  lock_path, take_lock, write_report, deploy, stop_timer, restore,
}
use see_size.ChartHub.Main.Keep.{
  digests-Keeps, read_configs-Keeps, read_pid-Keeps, states-Keeps, assert_active-Keeps,
  service-Keeps, wait-Keeps, deadline_from-Keeps,
}
use see_size.Setup.Register.Safety.{Spared, spawn-Spared}
use see_size.ChartHub.Main.Restore.{backup, Either, Ready, activate-Triple}

-- The preparation copies the live Hub into the bundle, and leaves it and the candidate alone.
abbrev pub Backs : Machine → Edition → Type 0
Backs m e =
    (i : ℕ) (fs : Fs)
    → let r = m.shell i (prepare_command e) fs in
      (lookup live r.fs ≡ lookup live fs)
      × (lookup (candidate e) r.fs ≡ lookup (candidate e) fs)
      × (r.ending ≡ ok 0 → content r.fs (backup e) ≡ content fs live)

candidate_ne_lock : (e : Edition) → candidate e ≢ lock_path
candidate_ne_lock charts h = apart_by_length _ _ (omega arith) h
candidate_ne_lock disks h = apart_by_length _ _ (omega arith) h

live_ne_lock : live ≢ lock_path
live_ne_lock h = ground (arith, eq_iff "seesize-hub-linux-amd64" ".maintenance.lock")

backup_ne_lock : (e : Edition) → backup e ≢ lock_path
backup_ne_lock e h = apart_by_length _ _ (omega arith) h

module _ (m : Machine) (web : Web) where
  pub take_lock-Holds :
      (q : FilePath) {b : Bytes} → q ≢ lock_path → Keeps (Holds q b) (take_lock m web)
  unfolding take_lock
  take_lock-Holds q other =
      Triple-bind
        (record {
          run = λ w k.
              Outcome-if _ _ (is_some (lookup lock_path w.fs)) _ _
                (λ _. (change_lem m (λ fs. fs) (λ v h. h) (λ v h. h)).run w k)
                (λ _. (write-Holds m q lock_path [] 0o644 other).run w k);
        })
        λ _. change_lem m (λ fs. fs) (λ v h. h) (λ v h. h)

module _ (m : Machine) (web : Web) (e : Edition) (new old : Bytes) where
  -- The two files that `main` begins with.
  abbrev pub Both : World → Type 0
  Both w = Holds (candidate e) new w × Holds live old w

  -- The candidate is the expected one.
  abbrev pub Tested : World → Type 0
  Tested w = Both w × (m.sha256 new ≡ expected e)

  module _ (calm : Spared m live) (still : Spared m (candidate e)) where
    Both-spawn : (args : List String) → Keeps Both (spawn m ("systemctl" ∷ args))
    Both-spawn args =
        Keeps-and (spawn-Spared m (candidate e) still args) (spawn-Spared m live calm args)

    digest_known :
        Triple Both (digest m web (candidate e)) (λ h w. Both w × (h ≡ m.sha256 new)) (λ _. Both)
    unfolding digest
    digest_known = Triple-bind (read_lem m (candidate e)) λ body.
        Triple-pure (m.sha256 body)
          (λ w k. (k.0, ground (arith, content_at-content (candidate e) w.fs k.0.0, k.1)))

    pub check_before-Triple : Triple Both (check_before m web e) (λ _. Tested) (λ _. Both)
    unfolding check_before
    check_before-Triple = Triple-bind (Keeps-gets _) λ _. Triple-bind (Keeps-raise_if _ _) λ _.
        Triple-bind (stat_of_lem m _) λ n. Triple-bind (Keeps-raise_if _ _) λ _.
          Triple-bind (Keeps-gets _) λ _. Triple-bind (Keeps-raise_if _ _) λ _.
            Triple-bind (Keeps-gets _) λ _. Triple-bind (Keeps-raise_if _ _) λ _.
              Triple-bind digest_known λ hash. Triple-given λ known.
                Triple-bind
                  (Triple-raise_if (not (hash == expected e)) crash {Q = λ _. Tested} (λ w k _. k)
                    (λ w k good. (k, ground arith)))
                  λ _. Triple-given λ good.
                    Triple-weaken (λ w k. (k, good)) (λ _ w k. k) (λ _ w k. k.0)
                      (Triple-bind (digests-Keeps m web Tested (λ w k. k) _) λ unchanged.
                        Triple-bind (read_configs-Keeps m web Tested (λ w k. k) calm_too) λ configs.
                          Triple-bind (read_pid-Keeps m web Tested (λ w k. k) calm_too) λ pid.
                            Triple-bind (states-Keeps m web Tested (λ w k. k) calm_too _)
                              λ original.
                                Triple-bind
                                  (Triple-each (λ _. Tested)
                                    (λ u _. assert_active-Keeps m web Tested (λ w k. k) calm_too u)
                                    _)
                                  λ _. Keeps-pure _)
      where
        calm_too : (args : List String) → Keeps Tested (spawn m ("systemctl" ∷ args))
        calm_too args = Keeps-fact (Both-spawn args)

    -- The preparation leaves a copy of the live Hub.
    prepare-Triple :
        Backs m e
        → Triple Both (run_checked m (prepare_command e)) (λ _. Ready e new old) (λ _. Both)
    unfolding run_checked spawn
    prepare-Triple backs =
        Triple-bind {Q = λ r w. Both w × (r.ending ≡ ok 0 → Holds (backup e) old w)}
          (record {
            run = λ w k.
                let (a, b, c) = backs w.tick w.fs in
                ((ground arith, ground arith), λ fine. ground (arith, c fine));
          })
          λ r.
            Triple-bind (Triple-weaken (λ w k. k) (λ _ w k. k) (λ _ w k. k.0) (lift_lem r.ending))
              λ code. Triple-given λ is.
                Triple-if (code == 0)
                  (λ zero. Triple-pure r.stdout (λ w k. (k.0, k.1 (ground (arith, is)))))
                  (λ other. Triple-raise process_error (λ w k. k.0))

    module _ (safe : Spared m (backup e)) (backs : Backs m e) (b : Before) where
      -- What is left where the way back or the end fails.
      module _ (Bad : World → Type 0)
          (back : Triple (Either e new old) (restore m web e) (λ _. Holds live old) (λ _. Bad))
          (reported : (started : String) (reports : Report × Report)
            → Triple
                (Holds live new)
                (write_report m web e started reports)
                (λ _. Holds live new)
                (λ _. Bad)) where
        pub deploy-Triple :
            (started : String)
            → Triple Both
                (deploy m web e b started)
                (λ _. Holds live new)
                (λ _ w. Holds live old w ⊎ Bad w)
        unfolding deploy stop_timer
        deploy-Triple started =
            Triple-bind
              (unharmed (
                Triple-each (λ _. Both) (λ t _. service-Keeps m web Both (λ w k. k) Both-spawn _)
                  _))
              λ _. Triple-bind (unharmed (deadline_from-Keeps m web Both (λ w k. k))) λ deadline.
                Triple-bind
                  (unharmed (
                    Triple-each (λ _. Both)
                      (λ u _. wait-Keeps m web Both (λ w k. k) Both-spawn 122 deadline u) _))
                  λ _. Triple-bind (unharmed (prepare-Triple backs)) λ _.
                    Triple-bind
                      (Triple-weaken {E' = λ _. Ready e new old} (λ w k. k) (λ _ w k. k)
                        (λ _ w k. inl k.0.1)
                        (Keeps-and
                          (Keeps-and (take_lock-Holds m web (candidate e) (candidate_ne_lock e))
                            (take_lock-Holds m web live live_ne_lock))
                          (take_lock-Holds m web (backup e) (backup_ne_lock e))))
                      λ _.
                        Triple-bind (activate-Triple m web e calm still safe Bad back b) λ reports.
                          Triple-weaken (λ w k. k) (λ _ w k. k) (λ _ w k. inr k)
                            (reported started reports)
          where
            unharmed :
                {A : Type 0} {a : Action A} {Q : A → World → Type 0}
                → Triple Both a Q (λ _. Both)
                → Triple Both a Q (λ _ w. Holds live old w ⊎ Bad w)
            unharmed = Triple-weaken (λ w k. k) (λ _ w k. k) (λ _ w k. inl k.1)

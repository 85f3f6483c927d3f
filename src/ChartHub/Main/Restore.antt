-- ===== src/ChartHub/Main/Restore.antt =====
-- The exchange of the live Hub and the way back.
use text.Mathlib.TextEquality.{eq_iff}
use see_size.Base.{String, ◌≢◌, ◌⊎◌, inl, inr, list_eq, string_eq, List, [], ◌∷◌, arith}
use see_size.Fs.{FilePath, ◌//◌, Bytes}
use see_size.Fs.Laws.{apart_by_length}
use see_size.Script.{Machine, World}
use see_size.Script.Rules.{
  Triple, Keeps, Triple-bind, Triple-catch, Triple-weaken, Triple-and, Triple-pure, Triple-raise,
  Keeps-and,
}
use see_size.Script.Frame.{Holds}
use see_size.Script.Frame.Keep.{copy_file-Holds, chmod-Holds, rename-Holds}
use see_size.Script.Frame.Sure.{Fine, Succeeds, run_sure, copy_sure, chmod_sure, rename_sure}
use see_size.Setup.Replace.Atomic.{copy_file-Triple, rename-Triple}
use see_size.ChartHub.{Web}
use see_size.ChartHub.Main.{
  Edition, charts, disks, Before, hub_name, live, candidate, rollback, stage, user_service, service,
  put_in_place, bring_up, restore, activate,
}
use see_size.Setup.Register.Safety.{Spared, spawn-Spared}
use see_size.ChartHub.Main.Keep.{service-Keeps, observe-Keeps}

abbrev pub backup : Edition → FilePath
backup e = rollback e // hub_name

pub live_ne_stage : (e : Edition) (n : String) → live ≢ stage e // n
live_ne_stage charts n e = apart_by_length _ _ (omega arith) e
live_ne_stage disks n e = apart_by_length _ _ (omega arith) e

backup_ne_live : (e : Edition) → backup e ≢ live
backup_ne_live e h = apart_by_length _ _ (omega arith) h

backup_ne_next : (e : Edition) → backup e ≢ stage e // "activate-hub"
backup_ne_next e h = ground (arith, eq_iff "seesize-hub-linux-amd64" "activate-hub")

backup_ne_old : (e : Edition) → backup e ≢ stage e // "rollback-hub"
backup_ne_old e h = ground (arith, eq_iff "seesize-hub-linux-amd64" "rollback-hub")

-- The live Hub is the old one or the new one, and the old one is in the bundle.
abbrev pub Either : Edition → Bytes → Bytes → World → Type 0
Either e new old w = (Holds live old w ⊎ Holds live new w) × Holds (backup e) old w

-- The candidate, the live Hub, and its copy in the bundle.
abbrev pub Ready : Edition → Bytes → Bytes → World → Type 0
Ready e new old w = (Holds (candidate e) new w × Holds live old w) × Holds (backup e) old w

module _ (m : Machine) (web : Web) where
  pub service_sure :
      {b : Bytes}
      → Spared m live
      → Succeeds m "systemctl"
      → (args : List String)
      → Triple (Holds live b) (service m web args) (λ _. Holds live b) (λ _ w. ⊥)
  unfolding service user_service
  service_sure calm good args =
      Triple-bind (run_sure m "systemctl" _ good (spawn-Spared m live calm _))
        λ shown. Triple-pure tt (λ w k. k)

  module _ (source replacement : FilePath) (apart : live ≢ replacement) {new old : Bytes}
      (calm : Spared m live) where
    -- The live program is afterwards the source, or after an exception still the old one.
    put-Triple :
        Triple
          (λ w. Holds source new w × Holds live old w)
          (put_in_place m web source replacement)
          (λ _. Holds live new)
          (λ _ w. Holds live old w ⊎ Holds live new w)
    unfolding put_in_place
    put-Triple =
        Triple-bind
          (Triple-weaken (λ w k. k) (λ _ w k. k) (λ _ w k. inl k.1)
            (Triple-and (copy_file-Triple m source replacement)
              (copy_file-Holds m live source replacement apart)))
          λ _.
            Triple-bind
              (Triple-weaken (λ w k. k) (λ _ w k. k) (λ _ w k. inl k.1)
                (Keeps-and (chmod-Holds m replacement replacement 0o700)
                  (chmod-Holds m live replacement 0o700)))
              λ _.
                Triple-bind
                  (Triple-weaken (λ w k. k) (λ _ w k. k) (λ _ w k. inl k)
                    (rename-Triple m replacement live))
                  λ _.
                    Triple-weaken (λ w k. k) (λ _ w k. k) (λ _ w k. inr k)
                      (service-Keeps m web (Holds live new) (λ w k. k) (spawn-Spared m live calm) _)

    put_sure :
        Fine m
        → Succeeds m "systemctl"
        → Triple
            (λ w. Holds source new w × Holds live old w)
            (put_in_place m web source replacement)
            (λ _. Holds live new)
            (λ _ w. ⊥)
    unfolding put_in_place
    put_sure fine good =
        Triple-bind
          (Triple-weaken (λ w k. k) (λ _ w k. k) (λ _ w k. k.0)
            (Triple-and (copy_sure m fine source replacement)
              (copy_file-Holds m live source replacement apart)))
          λ _.
            Triple-bind
              (Triple-weaken (λ w k. k) (λ _ w k. k) (λ _ w k. k.0)
                (Triple-and (chmod_sure m fine replacement replacement 0o700)
                  (chmod_sure m fine replacement live 0o700)))
              λ _. Triple-bind (rename_sure m fine replacement live) λ _. service_sure calm good _

  put-Holds :
      (q source replacement : FilePath) {b : Bytes}
      → q ≢ replacement
      → q ≢ live
      → Spared m q
      → Keeps (Holds q b) (put_in_place m web source replacement)
  unfolding put_in_place
  put-Holds q source replacement other apart calm =
      Triple-bind (copy_file-Holds m q source replacement other) λ _.
        Triple-bind (chmod-Holds m q replacement 0o700) λ _.
          Triple-bind (rename-Holds m q replacement live other apart)
            λ _. service-Keeps m web (Holds q _) (λ w k. k) (spawn-Spared m q calm) _

  stop :
      (q : FilePath) {c : Bytes}
      → Spared m q
      → Keeps (Holds q c) (service m web ("stop" ∷ "seesize-hub" ∷ []))
  stop q h = service-Keeps m web (Holds q _) (λ w k. k) (spawn-Spared m q h) _

  module _ (e : Edition) {new old : Bytes} (calm : Spared m live) (still : Spared m (candidate e))
      (safe : Spared m (backup e)) where
    bring_up-Triple :
        (b : Before)
        → Triple
            (Ready e new old)
            (bring_up m web e b)
            (λ _ w. Holds live new w × Holds (backup e) old w)
            (λ _. Either e new old)
    unfolding bring_up
    bring_up-Triple b =
        Triple-bind
          (Triple-and
            (put-Triple (candidate e) (stage e // "activate-hub") (live_ne_stage e _) calm)
            (put-Holds (backup e) _ _ (backup_ne_next e) (backup_ne_live e) safe))
          λ _.
            Triple-weaken (λ w k. k) (λ _ w k. k) (λ _ w k. (inr k.0, k.1))
              (Keeps-and
                (observe-Keeps m web (Holds live new) (λ w k. k) (spawn-Spared m live calm) e b)
                (observe-Keeps m web (Holds (backup e) old) (λ w k. k)
                  (spawn-Spared m (backup e) safe) e b))

    -- What is shown from each Hub is shown from either.
    restored :
        {Bad : Bytes → World → Type 0} (B : World → Type 0)
        → ((c : Bytes)
            → Triple
                (λ w. Holds live c w × Holds (backup e) old w)
                (restore m web e)
                (λ _. Holds live old)
                (λ _. Bad c))
        → ((w : World) → Bad old w → B w)
        → ((w : World) → Bad new w → B w)
        → Triple (Either e new old) (restore m web e) (λ _. Holds live old) (λ _. B)
    restored B h was is = record {
      run = λ w k. elim k.0 [
        | inl l ↦ (Triple-weaken (λ v x. x) (λ _ v x. x) (λ _ v x. was v x) (h old)).run w (l, k.1)
        | inr l ↦ (Triple-weaken (λ v x. x) (λ _ v x. x) (λ _ v x. is v x) (h new)).run w (l, k.1)
      ];
    }

    -- The old Hub is put back, or what was there stays.
    pub restore-Triple :
        Triple (Either e new old) (restore m web e) (λ _. Holds live old) (λ _. Either e new old)
    unfolding restore
    restore-Triple =
        restored {Bad = λ c w. (Holds live c w ⊎ Holds live old w) × Holds (backup e) old w}
          (Either e new old) restore_from (λ w k. (inl (elim k.0 [ inl x ↦ x | inr x ↦ x ]), k.1))
          (λ w k. (elim k.0 [ inl x ↦ inr x | inr x ↦ inl x ], k.1))
      where
        restore_from :
            (c : Bytes)
            → Triple
                (λ w. Holds live c w × Holds (backup e) old w)
                (restore m web e)
                (λ _. Holds live old)
                (λ _ w. (Holds live c w ⊎ Holds live old w) × Holds (backup e) old w)
        restore_from c =
            Triple-bind
              (Triple-weaken {E' = λ _ w. Holds live c w × Holds (backup e) old w} (λ w k. k)
                (λ _ w k. ((k.1, k.0), k.1)) (λ _ w k. (inl k.0, k.1))
                (Keeps-and (stop live calm) (stop (backup e) safe)))
              λ _.
                Triple-weaken (λ w k. k) (λ _ w k. k.0) (λ _ w k. k)
                  (Triple-and
                    (put-Triple (backup e) (stage e // "rollback-hub") (live_ne_stage e _) calm)
                    (put-Holds (backup e) _ _ (backup_ne_old e) (backup_ne_live e) safe))

    -- Where no call fails, the old Hub is put back.
    pub restore_sure :
        Fine m
        → Succeeds m "systemctl"
        → Triple (Either e new old) (restore m web e) (λ _. Holds live old) (λ _ w. ⊥)
    unfolding restore
    restore_sure fine good =
        restored {Bad = λ c w. ⊥} (λ w. ⊥)
          (λ c.
            Triple-bind
              (Triple-weaken {Q = λ _ w. Holds (backup e) old w × Holds live c w} (λ w k. k)
                (λ _ w k. (k.1, k.0)) (λ _ w k. k.0)
                (Triple-and (service_sure calm good ("stop" ∷ "seesize-hub" ∷ []))
                  (stop (backup e) safe)))
              λ _.
                put_sure (backup e) (stage e // "rollback-hub") (live_ne_stage e _) calm fine good)
          (λ w k. k) (λ w k. k)

    -- Whatever the restoring leaves when it fails.
    module _ (Bad : World → Type 0)
        (back : Triple (Either e new old) (restore m web e) (λ _. Holds live old) (λ _. Bad)) where
      pub activate-Triple :
          (b : Before)
          → Triple
              (Ready e new old)
              (activate m web e b)
              (λ _. Holds live new)
              (λ _ w. Holds live old w ⊎ Bad w)
      unfolding activate
      activate-Triple b =
          Triple-bind
            (Triple-weaken {E' = λ _. Ready e new old} (λ w k. k) (λ _ w k. k) (λ _ w k. inl k.0.1)
              (Keeps-and (Keeps-and (stop (candidate e) still) (stop live calm))
                (stop (backup e) safe)))
            λ _.
              Triple-weaken (λ w k. k) (λ _ w k. k.0) (λ _ w k. k)
                (Triple-catch (bring_up-Triple b) (λ raised.
                  Triple-bind (Triple-weaken (λ w k. k) (λ _ w k. k) (λ _ w k. inr k) back)
                    λ _. Triple-raise raised (λ w k. inl k)))

-- ===== src/Storage/Main/Safety.antt =====
-- What a run of the maintenance leaves alone: all that is not registered as an artifact.
use text.Mathlib.TextEquality.{eq_iff}
use see_size.Base.{
  subst, ℕ, String, string_eq, list_eq, nat_eq, ◌≡◌, refl, ◌≢◌, Bool, true, false, List, [], ◌∷◌,
  arith, if◌then◌else◌, is_some, contains, All, Bool-cases, inl, inr,
}
use see_size.Base.Dict.{lookup, children}
use see_size.Fs.{FilePath, ◌//◌, Bytes, Fs, under, is_dir}
use see_size.Fs.Laws.{under_self, under-length}
use see_size.Json.{Json}
use see_size.Script.{Machine, World, Result, ok, Action, pure}
use see_size.Script.Rules.{
  Outcome, Triple, Keeps, Triple-bind, Triple-weaken, Triple-each_of, Triple-catch, Triple-finally,
  Triple-given, Outcome-if, Keeps-pure, Keeps-raise, Keeps-raise_if, Keeps-if, Keeps-or_raise,
  lift-Keeps, lift_lem, Keeps-gets,
}
use see_size.Script.Frame.{Holds, read-Keeps, change_lem}
use see_size.Script.Frame.Keep.{
  write-Holds, unlink-Holds, unlink_if_there-Holds, rename-Holds, rmtree-Holds,
  make_temp_file-Holds, run_checked-Keeps,
}
use see_size.Script.Files.{change}
use see_size.Setup.Cache.Slots.{refuse-Keeps}
use see_size.Setup.Register.Safety.{Untouched, spawn-Untouched}
use see_size.Storage.{Entry, protected, plan}
use see_size.Storage.Safety.{Removable, plan-Removable}
use see_size.Storage.Main.{
  Args, lock_path, held, check_root, take_lock, read_register, refuse_busy, remove, is_old_partial,
  is_partial_name, drop_partials, clean, save_report, conclude, main,
}

-- Two names of a folder with the same path below both are one.
one_name :
    (d q : FilePath) (a b : String) → under (d // a) q ≡ true → under (d // b) q ≡ true → a ≡ b
unfolding under
one_name d [] a b h k = ground arith
one_name d (n ∷ q) a b h k =
    ground (arith, under-length (a ∷ d) q, under-length (b ∷ d) q, one_name d q a b)

lock_unprotected : (p : String) → contains protected p ≡ true → p ≢ ".maintenance.lock"
lock_unprotected p h e = cc (subst (λ (x : String). contains protected x ≡ true) e h, free)
  where
    free : contains protected ".maintenance.lock" ≡ false
    free = ground (
      arith,
      eq_iff "data" ".maintenance.lock",
      eq_iff "backups" ".maintenance.lock",
      eq_iff "admin.token" ".maintenance.lock",
      eq_iff "agent.token" ".maintenance.lock",
      eq_iff "maintenance-artifacts.json" ".maintenance.lock",
      eq_iff "storage-status.json" ".maintenance.lock",
    )

-- A file that is none of the backup program's unfinished ones.
abbrev pub Durable : FilePath → FilePath → Type 0
Durable root q = (n : String) → is_partial_name n ≡ true → q ≢ root // "backups" // n

module _ (m : Machine) where
  module _ (root q : FilePath) (p : String) (inside : under (root // p) q ≡ true) where
    -- A file below another name of the root is not this one.
    apart : (n : String) → p ≢ n → under (root // n) q ≡ false
    apart n h = elim (Bool-cases (under (root // n) q)) [
      | inl e ↦ absurd (h (one_name root q p n inside e))
      | inr e ↦ e
    ]

    ne_name : (n : String) → p ≢ n → q ≢ root // n
    ne_name n h e = ground (arith, apart n h, under_self (root // n))

    remove-Holds : (n : String) → p ≢ n → {b : Bytes} → Keeps (Holds q b) (remove m root n)
    unfolding remove
    remove-Holds n h = record {
      run = λ w k.
          Outcome-if _ _ (is_dir w.fs (root // n)) _ _
            (λ _. (rmtree-Holds m q (root // n) (apart n h)).run w k)
            (λ _. (unlink-Holds m q (root // n) (ne_name n h)).run w k);
    }

    drop_partials-Holds :
        (now : ℕ) (ns : List String)
        → Durable root q
        → {b : Bytes} → Keeps (Holds q b) (drop_partials m (root // "backups") now ns)
    unfolding drop_partials is_old_partial
    drop_partials-Holds now [] h = Keeps-pure []
    drop_partials-Holds now (n ∷ ns) h =
        Triple-bind
          (record {
            run = λ w k.
                Outcome-if _ _ (is_old_partial w.fs (root // "backups") now n) _ _
                  (λ old.
                    (Triple-bind
                        (unlink-Holds m q (root // "backups" // n) (h n (ground (arith, old))))
                        λ _. Keeps-pure _).run
                      w k)
                  (λ _. k);
          })
          λ dropped. Triple-bind (drop_partials-Holds now ns h) λ rest. Keeps-pure _

    save_report-Holds :
        (j : Json)
        → p ≢ "storage-status.json"
        → {b : Bytes} → Keeps (Holds q b) (save_report m root j)
    unfolding save_report
    save_report-Holds j h = Triple-bind (make_temp_file-Holds m q root ".storage-") λ temp.
        Triple-given λ n.
          Triple-finally
            (Triple-bind (write-Holds m q temp _ 0o600 n)
              λ _. rename-Holds m q temp (root // "storage-status.json") n (ne_name _ h))
            (λ _. unlink_if_there-Holds m q temp n) (λ _. unlink_if_there-Holds m q temp n)

    take_lock-Holds : p ≢ ".maintenance.lock" → {b : Bytes} → Keeps (Holds q b) (take_lock m root)
    unfolding take_lock
    take_lock-Holds h = Triple-bind (refuse-Keeps _ _ _) λ _.
        Triple-bind
          (record {
            run = λ w k.
                Outcome-if _ _ (is_some (lookup (lock_path m root) w.fs)) _ _ (λ _. (still).run w k)
                  (λ _.
                    (write-Holds m q (root // ".maintenance.lock") [] 0o644 (ne_name _ h)).run w k);
          })
          λ _. Triple-catch still λ e. Keeps-raise (held e)
      where
        still : {b : Bytes} → Keeps (Holds q b) (change m (λ fs. fs))
        still = change_lem m (λ fs. fs) (λ w k. k) (λ w k. k)

    module _ (calm : Untouched m q) where
      refuse_busy-Holds : {b : Bytes} → Keeps (Holds q b) (refuse_busy m)
      unfolding refuse_busy
      refuse_busy-Holds {b} =
          Triple-bind (run_checked-Keeps m (Holds q b) (spawn-Untouched m q calm) _)
            λ shown. Keeps-raise_if _ _

      clean-Holds :
          (now : ℕ) (targets : List String)
          → Durable root q
          → All (λ (n : String). p ≢ n) targets
          → {b : Bytes} → Keeps (Holds q b) (clean m root now targets)
      unfolding clean
      clean-Holds now targets h others {b} = Triple-bind refuse_busy-Holds λ _.
          Triple-bind
            (Triple-each_of (λ (n : String). p ≢ n) (λ _. Holds q b) (λ n ns no. remove-Holds n no)
              targets others)
            λ _. Triple-bind (refuse-Keeps _ _ _) λ _. Triple-bind (refuse-Keeps _ _ _) λ _.
              Triple-bind (Keeps-gets (children (root // "backups")))
                λ names. Triple-bind (drop_partials-Holds now names h) λ dropped. Keeps-pure _

      conclude-Holds :
          (apply : Bool) (checked : String) (targets : List String)
          → p ≢ "storage-status.json"
          → {b : Bytes} → Keeps (Holds q b) (conclude m root apply checked targets)
      unfolding conclude
      conclude-Holds apply checked targets h {b} = Triple-bind (Keeps-gets _) λ total.
          Triple-bind (record { run = λ w k. k })
            λ free.
              Triple-bind (Keeps-if apply (save_report-Holds _ h) (Keeps-pure tt)) λ _. Keeps-pure _

  check_root-Keeps : (root : FilePath) {I : World → Type 0} → Keeps I (check_root m root)
  unfolding check_root
  check_root-Keeps root = Triple-bind (refuse-Keeps _ _ _) λ _. refuse-Keeps _ _ _

  read_register-Keeps : (root : FilePath) {I : World → Type 0} → Keeps I (read_register m root)
  unfolding read_register
  read_register-Keeps root =
      Triple-bind (read-Keeps m _) λ raw. Triple-bind (Keeps-or_raise _ _) λ j. lift-Keeps _

  module _ (is_mount : FilePath → Bool) (due : String → ℕ → Result Bool) where
    -- The names that a plan has are not protected ones.
    All-unprotected :
        (root : FilePath) (now : ℕ) (fs : Fs) (entries : List Entry) (p : String)
        → contains protected p ≡ true
        → (names : List String) → All (Removable is_mount due root now fs entries) names
        → All (λ (n : String). p ≢ n) names
    All-unprotected root now fs entries p h [] a = tt
    All-unprotected root now fs entries p h (n ∷ ns) (r, rs) = (
      (λ e. cc (subst (λ (x : String). contains protected x ≡ true) e h, r.unprotected)),
      All-unprotected root now fs entries p h ns rs,
    )

    plan-unprotected :
        (root : FilePath) (now : ℕ) (fs : Fs) (entries : List Entry) (p : String)
        → contains protected p ≡ true
        → (names : List String) → plan is_mount due root now fs entries ≡ ok names
        → All (λ (n : String). p ≢ n) names
    plan-unprotected root now fs entries p h names made =
        All-unprotected root now fs entries p h names
          (plan-Removable is_mount due root now fs entries names made)

    -- A regular file at or below a protected name of the root is as it was after a run of the
    -- maintenance, however the run ends: the live database, the credentials, the register, and the
    -- completed backups. Not meant are the report and the backup program's unfinished files, with
    -- names such as `.status-1.partial` in the folder of the backups. The commands do not write to the
    -- file.
    pub main_protected :
        (args : Args) (p : String) (q : FilePath) (b : Bytes) (w : World)
        → contains protected p ≡ true
        → Durable (m.absolute args.root) q
        → p ≢ "storage-status.json"
        → under (m.absolute args.root // p) q ≡ true
        → Untouched m q
        → Holds q b w
        → Outcome (λ _. Holds q b) (λ _. Holds q b) (main m is_mount due args w)
    unfolding main
    main_protected args p q b w known durable no_report inside calm k =
        let root = m.absolute args.root in
        (Triple-bind (check_root-Keeps root) λ _.
            Triple-bind
              (Keeps-if args.apply (take_lock-Holds root q p inside (lock_unprotected p known))
                (Keeps-pure tt))
              λ _. Triple-bind (read_register-Keeps root) λ entries.
                Triple-bind (record { run = λ v h. h })
                  λ (checked, now). Triple-bind (planned root now entries) λ targets.
                    Triple-given λ others.
                      Triple-bind
                        (Keeps-if args.apply
                          (clean-Holds root q p inside calm now targets durable others)
                          (Keeps-pure targets))
                        λ gone.
                          conclude-Holds root q p inside calm args.apply checked gone no_report).run
          w k
      where
        planned :
            (root : FilePath) (now : ℕ) (entries : List Entry)
            → Triple
                (Holds q b)
                (λ v. (plan is_mount due root now v.fs entries, v))
                (λ names v. Holds q b v × All (λ (n : String). p ≢ n) names)
                (λ _. Holds q b)
        planned root now entries = record {
          run = λ v h.
              (Triple-weaken {P' = Holds q b} (λ _ x. x)
                  (λ names _ x. (x.0, plan-unprotected root now v.fs entries p known names x.1))
                  (λ _ _ x. x) (lift_lem (plan is_mount due root now v.fs entries))).run
                v h;
        }

    -- Without `--apply`, a run changes no file and starts no command, however it ends.
    pub main_dry :
        (args : Args) (w : World)
        → args.apply ≡ false
        → Outcome
            (λ _ v. (v.fs ≡ w.fs) × (v.commands ≡ w.commands))
            (λ _ v. (v.fs ≡ w.fs) × (v.commands ≡ w.commands))
            (main m is_mount due args w)
    unfolding main conclude
    main_dry args w dry =
        let I : World → Type 0 = λ v. (v.fs ≡ w.fs) × (v.commands ≡ w.commands) in
        (Triple-bind (check_root-Keeps (m.absolute args.root) {I = I}) λ _.
            Triple-bind (quiet_if _ _ args.apply dry) λ _.
              Triple-bind (read_register-Keeps _) λ entries.
                Triple-bind (record { run = λ v h. h })
                  λ (checked, now).
                    Triple-bind
                      (record {
                        run = λ v h.
                            (lift-Keeps {I = I} (plan is_mount due _ now v.fs entries)).run v h;
                      })
                      λ targets. Triple-bind (quiet_if _ _ args.apply dry) λ gone.
                        Triple-bind (Keeps-gets _) λ total.
                          Triple-bind (record { run = λ v h. h })
                            λ free. Triple-bind (quiet_if _ _ args.apply dry) λ _. Keeps-pure _).run
          w (refl, refl)
      where
        quiet_if :
            {A : Type 0} (a : Action A) (x : A) {I : World → Type 0} (c : Bool)
            → c ≡ false
            → Keeps I (if c then a else pure x)
        quiet_if a x true h = cc
        quiet_if a x false h = Keeps-pure x

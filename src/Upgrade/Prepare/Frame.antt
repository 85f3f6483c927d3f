-- ===== src/Upgrade/Prepare/Frame.antt =====
-- What the preparation of an upgrade leaves alone: every file but the lock, the register and what
-- lies in the new bundle.
use see_size.Base.{
  ℕ, String, ◌<>◌, string_eq, list_eq, nat_eq, ◌≡◌, refl, ◌≢◌, Bool, true, false, List, [], ◌∷◌,
  arith, is_some, ap,
}
use see_size.Base.Dict.{Dict, lookup, keys}
use see_size.Fs.{FilePath, ◌//◌, Bytes, Fs, under}
use see_size.Fs.Laws.{under_self}
use see_size.Json.{Json}
use see_size.Script.{Machine, World, ok}
use see_size.Script.Rules.{
  Outcome, Triple, Keeps, Triple-bind, Triple-given, lift_lem, Triple-each, Triple-catch,
  Outcome-if, Keeps-pure, Keeps-raise, Keeps-raise_if, Triple-pure, Keeps-or_raise, lift-Keeps,
  Keeps-gets,
}
use see_size.Script.Frame.{Holds, read-Keeps, stat_of_lem, change_lem}
use see_size.Script.Frame.Keep.{
  copy_file-Holds, chmod-Holds, mkdir-Holds, rmtree-Holds, write-Holds, run_checked-Keeps,
}
use see_size.Script.Files.{spawn, run_checked}
use see_size.Setup.Cache.Slots.{refuse-Keeps}
use see_size.Upgrade.{mapping, digest, validate_candidate}
use see_size.Upgrade.Atomic.{atomic_json-Holds}
use see_size.Upgrade.Prepare.{
  Args, Ready, register, program_name, read_json, refuse_registered, copy2, keep_programs,
  stage_candidate, read_configs, old_hashes, make_bundle, lock, commit, check, validate_all,
  total_size, exit_if,
}

-- Commands that write only directly in a folder: the backup program, and queries of systemd.
abbrev pub Confined : Machine → FilePath → Type 0
Confined m target =
    (i : ℕ) (args : List String) (fs : Fs) (d : FilePath) (n : String)
    → d ≢ target
    → lookup (d // n) (m.shell i args fs).fs ≡ lookup (d // n) fs

-- The components and their hashes are those of the command line.
abbrev pub Requested : Args → Ready → Type 0
Requested args r =
    (supplied : Dict String String) × ((mapping args.candidate ≡ ok supplied)
      × (keys r.candidates ≡ keys supplied)
      × (mapping args.sha256 ≡ ok r.hashes))

module _ (m : Machine) where
  module _ {I : World → Type 0} where
    digest-Keeps : (p : FilePath) → Keeps I (digest m p)
    unfolding digest
    digest-Keeps p = Triple-bind (read-Keeps m p) λ b. Keeps-pure _

    pub validate_candidate-Keeps : (p : FilePath) (h : String) → Keeps I (validate_candidate m p h)
    unfolding validate_candidate
    validate_candidate-Keeps p h = Triple-bind (Keeps-raise_if _ _) λ _.
        Triple-bind (refuse-Keeps _ _ _) λ _. Triple-bind (refuse-Keeps _ _ _) λ _.
          Triple-bind (read-Keeps m p) λ header. Triple-bind (Keeps-raise_if _ _) λ _.
            Triple-bind (digest-Keeps p)
              λ actual. Triple-bind (Keeps-raise_if _ _) λ _. Keeps-pure p

    pub refuse_registered-Keeps : (j : Json) (n : String) → Keeps I (refuse_registered m j n)
    unfolding refuse_registered
    refuse_registered-Keeps j n = Triple-bind (lift-Keeps _) λ known. Keeps-raise_if _ _

    pub read_json-Keeps : (p : FilePath) → Keeps I (read_json m p)
    unfolding read_json
    read_json-Keeps p = Triple-bind (read-Keeps m p) λ raw. Keeps-or_raise _ _

    pub old_hashes-Keeps : (d : FilePath) (cs : List String) → Keeps I (old_hashes m d cs)
    unfolding old_hashes
    old_hashes-Keeps d [] = Keeps-pure _
    old_hashes-Keeps d (c ∷ cs) =
        Triple-bind (digest-Keeps _)
          λ hash. Triple-bind (old_hashes-Keeps d cs) λ rest. Keeps-pure _

    -- The components are those that were asked for.
    validate_all-keys :
        (d h : Dict String String)
        → Triple I (validate_all m d h) (λ ps w. I w × (keys ps ≡ keys d)) (λ _. I)
    unfolding validate_all
    validate_all-keys [] h = Triple-pure _ (λ w k. (k, refl))
    validate_all-keys ((c, p) ∷ d) h = Triple-bind (lift-Keeps _) λ hash.
        Triple-bind (validate_candidate-Keeps _ hash) λ path.
          Triple-bind (validate_all-keys d h) λ rest.
            Triple-given λ same. Triple-pure ((c, path) ∷ rest) (λ w k. (k, ap (λ cs. c ∷ cs) same))

    total_size-Keeps : (ps : List FilePath) → Keeps I (total_size m ps)
    unfolding total_size
    total_size-Keeps [] = Keeps-pure _
    total_size-Keeps (p ∷ ps) =
        Triple-bind (stat_of_lem m p) λ n. Triple-bind (total_size-Keeps ps) λ rest. Keeps-pure _

    -- The checks change nothing, and what they hand on follows from the command line.
    pub check_lem :
        (args : Args)
        → Triple I
            (check m args)
            (λ r w.
              I w
              × ((r.root ≡ m.absolute args.root)
                  × (r.release ≡ args.release)
                  × (r.target ≡ r.root // ("pre-" <> r.release))
                  × Requested args r))
            (λ _. I)
    unfolding check
    check_lem args =
        let root = m.absolute args.root in
        Triple-bind (Keeps-raise_if _ _) λ _. Triple-bind (refuse-Keeps _ _ _) λ _.
          Triple-bind (refuse-Keeps _ _ _) λ _. Triple-bind (stat_of_lem m root) λ n.
            Triple-bind (Keeps-raise_if _ _) λ _. Triple-bind (refuse-Keeps _ _ _) λ _.
              Triple-bind (lift_lem (mapping args.candidate)) λ supplied. Triple-given λ asked.
                Triple-bind (lift_lem (mapping args.sha256)) λ hashes. Triple-given λ hashed.
                  Triple-bind (Keeps-raise_if _ _) λ _.
                    Triple-bind (validate_all-keys supplied hashes) λ candidates.
                      Triple-given λ same.
                        Triple-bind (Triple-each (λ _. I) (λ c _. refuse-Keeps _ _ _) _) λ _.
                          Triple-bind (Triple-each (λ _. I) (λ x _. Keeps-raise_if _ _) _) λ _.
                            Triple-bind (refuse-Keeps _ _ _) λ _.
                              Triple-bind (refuse-Keeps _ _ _) λ _.
                                Triple-bind (read_json-Keeps _) λ entries.
                                  Triple-bind (refuse_registered-Keeps entries _) λ _.
                                    Triple-bind (stat_of_lem m _) λ db.
                                      Triple-bind (total_size-Keeps _) λ live.
                                        Triple-bind (total_size-Keeps _) λ new.
                                          Triple-bind {Q = λ _. I}
                                            (record { run = λ w k. headroom w k _ })
                                            λ _. Triple-pure _ (λ w k. (
                                              k,
                                              (refl, refl, refl, (supplied, (asked, same, hashed))),
                                            ))
      where
        headroom :
            (w : World)
            → I w
            → (b : Bool)
            → Outcome {A = Unit}
                (λ _. I)
                (λ _. I)
                (exit_if b "insufficient headroom: bundle estimate plus 2 GiB required" w)
        headroom w k true = k
        headroom w k false = k

  -- A command writes to no file whose folder is another.
  module _ (target : FilePath) (calm : Confined m target) (d : FilePath) (n : String) {b : Bytes}
      (apart : d ≢ target) where
    spawn-Confined : (args : List String) → Keeps (Holds (d // n) b) (spawn m args)
    unfolding spawn
    spawn-Confined args = record { run = λ w k. ground (arith, calm w.tick args w.fs d n apart) }

    pub run_checked-Confined : (args : List String) → Keeps (Holds (d // n) b) (run_checked m args)
    run_checked-Confined args = run_checked-Keeps m (Holds (d // n) b) spawn-Confined args

    pub read_configs-Confined : (us : List String) → Keeps (Holds (d // n) b) (read_configs m us)
    unfolding read_configs
    read_configs-Confined [] = Keeps-pure _
    read_configs-Confined (u ∷ us) =
        Triple-bind (run_checked-Confined _)
          λ shown. Triple-bind (read_configs-Confined us) λ rest. Keeps-pure _

  -- A file that is neither the register nor the lock nor in the bundle.
  module _ (r : Ready) (calm : Confined m r.target) (d : FilePath) (n : String) (b : Bytes)
      (outside : under r.target (d // n) ≡ false) where
    abbrev pub Q : FilePath
    Q = d // n

    pub elsewhere : d ≢ r.target
    unfolding under
    elsewhere e = ground (arith, under_self r.target)

    pub not_in : (p : FilePath) → under r.target p ≡ true → Q ≢ p
    not_in p i e = ground arith

    pub in_bundle : (c : String) → under r.target (r.target // c) ≡ true
    unfolding under
    in_bundle c = ground (arith, under_self r.target)

    in_stage : (c : String) → under r.target (r.target // "candidates" // c) ≡ true
    unfolding under
    in_stage c = ground (arith, under_self r.target)

    pub copy2-Holds : (p q : FilePath) → Q ≢ q → Keeps (Holds Q b) (copy2 m p q)
    unfolding copy2
    copy2-Holds p q h =
        Triple-bind (copy_file-Holds m Q p q h)
          λ _. Triple-bind (stat_of_lem m p) λ x. chmod-Holds m Q q _

    pub stage_candidate-Holds :
        (x : String × FilePath)
        → Keeps (Holds Q b) (stage_candidate m (r.target // "candidates") r.hashes x)
    unfolding stage_candidate
    stage_candidate-Holds (c, p) =
        Triple-bind (copy_file-Holds m Q p _ (not_in _ (in_stage (program_name c)))) λ _.
          Triple-bind (chmod-Holds m Q _ _) λ _.
            Triple-bind (lift-Keeps _)
              λ hash. Triple-bind (validate_candidate-Keeps _ hash) λ path. Keeps-pure tt

    pub lock-Holds :
        Q ≢ r.root // ".maintenance.lock"
        → Keeps (Holds Q b) (lock m (r.root // ".maintenance.lock"))
    unfolding lock
    lock-Holds other = Triple-bind (refuse-Keeps _ _ _) λ _.
        Triple-bind
          (record {
            run = λ w k.
                Outcome-if _ _ (is_some (lookup (r.root // ".maintenance.lock") w.fs)) _ _
                  (λ _. (change_lem m (λ fs. fs) (λ v j. j) (λ v j. j)).run w k)
                  (λ _. (write-Holds m Q (r.root // ".maintenance.lock") [] 0o644 other).run w k);
          })
          λ _. change_lem m (λ fs. fs) (λ v j. j) (λ v j. j)

    module _ (apart : Q ≢ register r.root) where
      make_bundle-Holds : (entries : Json) → Keeps (Holds Q b) (make_bundle m r entries)
      unfolding make_bundle keep_programs
      make_bundle-Holds entries =
          Triple-bind
            (Triple-each (λ _. Holds Q b)
              (λ c _. copy2-Holds _ _ (not_in _ (in_bundle (program_name c)))) _)
            λ _. Triple-bind (mkdir-Holds m Q _ _) λ _.
              Triple-bind (Triple-each (λ _. Holds Q b) (λ x _. stage_candidate-Holds x) _) λ _.
                Triple-bind (read_configs-Confined r.target calm d n elsewhere _) λ configs.
                  Triple-bind (atomic_json-Holds m _ _ Q (not_in _ (in_bundle _))) λ _.
                    Triple-bind (run_checked-Confined r.target calm d n elsewhere _) λ shown.
                      Triple-bind (old_hashes-Keeps _ _) λ old. Triple-bind (Keeps-gets _) λ files.
                        Triple-bind (Keeps-raise_if _ _) λ _.
                          Triple-bind (record { run = λ w k. k })
                            λ created.
                              Triple-bind (atomic_json-Holds m _ _ Q (not_in _ (in_bundle _))) λ _.
                                Triple-bind (lift-Keeps _) λ all. atomic_json-Holds m _ _ Q apart

      pub commit-Holds : Q ≢ r.root // ".maintenance.lock" → Keeps (Holds Q b) (commit m r)
      unfolding commit
      commit-Holds other = Triple-bind (lock-Holds other) λ _.
          Triple-bind (read_json-Keeps _) λ entries. Triple-bind (refuse_registered-Keeps _ _) λ _.
            Triple-bind (mkdir-Holds m Q _ _) λ _.
              Triple-catch (make_bundle-Holds entries)
                λ e. Triple-bind (rmtree-Holds m Q r.target outside) λ _. Keeps-raise e

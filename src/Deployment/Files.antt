-- ===== src/Deployment/Files.antt =====
-- What stands in the root of a deployment where the checks of its files find nothing that blocks.
use see_size.Base.{
  leb, ap, subst, ◌*◌, ◌^◌, ◌==◌, nat_eq, string_eq, list_eq, String, ◌<>◌, ◌≡◌, refl, Bool, true,
  false, not, ◌||◌, some, List, [], ◌++◌, if◌then◌else◌, take, All, arith,
}
use see_size.Fs.{FilePath, ◌//◌, Bytes, Fs, Node, is_symlink, is_file, content_at, stat, size}
use see_size.Script.{Machine, World, pure, ◌>>=◌}
use see_size.Script.Rules.{
  Triple-weaken, quiet, Outcome, Triple, Triple-bind, Triple-given, Outcome-if, Triple-pure,
}
use see_size.Script.Files.{stat_of}
use see_size.Script.Frame.{read_lem, stat_known}
use see_size.Setup.Checks.Binary.{not_elf}
use see_size.Deployment.Blockers.{
  blockers-add, none_left, rest_left, verdict_good, Sound, gather-Sound,
}
use see_size.Deployment.{
  can_enter, Host, Check, add, blockers, programs, credentials, folders, can_execute, can_read,
  executable_check, credential_check, private, check_program, check_credential, check_folder,
  usable_folder, check_files, check_root, valid_root,
}

module _ (m : Machine) (host : Host) where
  -- A regular file with the right to run it, and with the header of a program for x86-64.
  abbrev pub Runs : Fs → FilePath → Type 0
  Runs fs path =
      (is_symlink fs path ≡ false)
      × (is_file fs path ≡ true)
      × (host.access fs path can_execute ≡ true)
      × ((b : Bytes) × ((content_at fs path ≡ some b) × (not_elf (take 20 b) ≡ false)))

  -- A regular file that is not empty, of the user, closed to all others and readable.
  abbrev pub Credential : Fs → FilePath → Type 0
  Credential fs path =
      (is_symlink fs path ≡ false)
      × (is_file fs path ≡ true)
      × (host.access fs path can_read ≡ true)
      × ((n : Node) × ((stat fs path ≡ some n)
            × (private m host n ≡ true)
            × ((size n == 0) ≡ false)))

  module _ (w : World) where
    abbrev At : World → Type 0
    At v = v ≡ w

    abbrev Verdict : Type 0 → Bool × String → World → Type 0
    Verdict F (good, detail) v = At v × (good ≡ true → F)

    executable_check_lem :
        (path : FilePath)
        → Triple At (executable_check m host path) (Verdict (Runs w.fs path)) (λ _ v. Unit)
    unfolding executable_check
    executable_check_lem path = record { run = λ v at. rw at (here) }
      where
        here : Outcome (Verdict (Runs w.fs path)) (λ _ v. Unit) (executable_check m host path w)
        here =
            Outcome-if _ _ (is_symlink w.fs path || not (is_file w.fs path)) _ _
              (λ _. (refl, λ e. cc))
              (λ regular.
                Outcome-if _ _ (not (host.access w.fs path can_execute)) _ _ (λ _. (refl, λ e. cc))
                  (λ runs.
                    (Triple-bind (quiet (read_lem m path {P = At})) λ header. Triple-pure _ (λ v k.
                        (
                          k.0,
                          verdict_good (not_elf (take 20 header)) _ _ (λ elf _. (
                            ground arith,
                            ground arith,
                            ground arith,
                            (header, (rw (← k.0) k.1, elf)),
                          )),
                        ))).run
                      w refl))

    credential_check_lem :
        (path : FilePath)
        → Triple At (credential_check m host path) (Verdict (Credential w.fs path)) (λ _ v. Unit)
    unfolding credential_check
    credential_check_lem path = record { run = λ v at. rw at here }
      where
        here :
            Outcome (Verdict (Credential w.fs path)) (λ _ v. Unit) (credential_check m host path w)
        here =
            Outcome-if _ _ (is_symlink w.fs path || not (is_file w.fs path)) _ _
              (λ _. (refl, λ e. cc))
              (λ regular.
                (Triple-bind (quiet (stat_known m path {P = At})) λ n. record {
                  run = λ v k. (
                    k.0,
                    verdict_good (not (private m host n)) _ _ (λ own.
                        verdict_good (not (host.access v.fs path can_read) || size n == 0) _ _
                          (λ full _.
                            let readable : (not (host.access w.fs path can_read) || size n == 0)
                                ≡ false =
                              rw (← k.0) full in
                            (
                              ground arith,
                              ground arith,
                              ground arith,
                              (n, (rw (← k.0) k.1, ground arith, ground arith)),
                            ))),
                  );
                }).run
                  w refl)

    abbrev program_path : FilePath → String → FilePath
    program_path root name = root // ("seesize-" <> name <> "-linux-amd64")

    check_program-Sound :
        (root : FilePath) (name : String)
        → Sound At (check_program m host root name) (Runs w.fs (program_path root name))
    unfolding check_program
    check_program-Sound root name =
        Triple-bind (executable_check_lem (program_path root name))
          λ (good, detail). Triple-pure _ (λ v k. (k.0, λ z. k.1 (blockers-add _ detail good z)))

    check_credential-Sound :
        (root : FilePath) (name : String)
        → Sound At (check_credential m host root name) (Credential w.fs (root // name))
    unfolding check_credential
    check_credential-Sound root name =
        Triple-bind (credential_check_lem (root // name))
          λ (good, detail). Triple-pure _ (λ v k. (k.0, λ z. k.1 (blockers-add _ detail good z)))

    check_folder-Sound :
        (root : FilePath) (name : String)
        → Sound At
            (check_folder m host root name)
            (usable_folder m host root w.fs (root // name) ≡ true)
    unfolding check_folder
    check_folder-Sound root name = record {
      run = λ v k. (
        k,
        λ z. rw (← k) (
            blockers-add ("directory_" <> name) _ (usable_folder m host root v.fs (root // name))
              z),
      );
    }

    -- What stands in the root of a deployment that passes, which is the user's own, closed to all
    -- others, and can be written, with room for 2 GiB.
    abbrev pub Complete : FilePath → Type 0
    Complete root =
        ((n : Node) × ((stat w.fs root ≡ some n) × (private m host n ≡ true)))
        × (leb (2 * 1024 ^ 3) (m.free_bytes w.tick) ≡ true)
        × (host.access w.fs root can_enter ≡ true)
        × All (λ (n : String). Runs w.fs (program_path root n)) programs
        × All (λ (n : String). Credential w.fs (root // n)) credentials
        × All (λ (n : String). usable_folder m host root w.fs (root // n) ≡ true) folders

    stat_root :
        (root : FilePath)
        → Triple At (stat_of m root) (λ n v. At v × (stat w.fs root ≡ some n)) (λ _ v. Unit)
    stat_root root =
        Triple-weaken (λ v k. k)
          (λ n v k. (k.0, subst (λ (u : World). stat u.fs root ≡ some n) k.0 k.1)) (λ _ v k. tt)
          (stat_known m root)

    check_files-Sound : (root : FilePath) → Sound At (check_files m host root) (Complete root)
    unfolding check_files
    check_files-Sound root = Triple-bind (stat_root root) λ n. Triple-given λ info.
        Triple-bind {Q = λ free v. At v × (free ≡ m.free_bytes w.tick)}
          (record { run = λ v at. (at, ap (λ (u : World). m.free_bytes u.tick) at) })
          λ free. Triple-given λ room.
            Triple-bind {Q = λ writable v. At v × (writable ≡ host.access w.fs root can_enter)}
              (record {
                run = λ v at. (at, ap (λ (u : World). host.access u.fs root can_enter) at);
              })
              λ writable. Triple-given λ enters.
                Triple-bind (gather-Sound _ _ (check_program-Sound root) programs) λ binaries.
                  Triple-given λ p.
                    Triple-bind (gather-Sound _ _ (check_credential-Sound root) credentials)
                      λ tokens. Triple-given λ c.
                        Triple-bind (gather-Sound _ _ (check_folder-Sound root) folders)
                          λ directories. Triple-given λ d. Triple-pure _ (λ v k. (
                            k,
                            λ z.
                                let (own, z1) = none_left (add "root_permissions" _ _) _ z in
                                let (disk, z2) = none_left (add "free_disk" _ _) _ z1 in
                                let (probe, z3) = none_left (add "root_writable" _ _) _ z2 in
                                let (b, z4) = none_left binaries _ z3 in
                                let (t, e) = none_left tokens directories z4 in
                                (
                                  (n, (info, blockers-add _ _ _ own)),
                                  rw (← room) (blockers-add _ _ _ disk),
                                  rw (← enters) (blockers-add _ _ _ probe),
                                  p b,
                                  c t,
                                  d e,
                                ),
                          ))

    abbrev detail : String
    detail = "dedicated existing directory, no symbolic path components"

    pub check_root-Sound :
        (root : FilePath)
        → Sound At (check_root m host root) ((valid_root m host w.fs root ≡ true) × Complete root)
    unfolding check_root
    check_root-Sound root = record {
      run = λ v at. rw at ((go (valid_root m host w.fs root)).run w refl);
    }
      where
        no_root : (rest : List Check) → blockers (add "root" false detail ++ rest) ≡ 0 → ⊥
        no_root rest z =
            cc (blockers-add "root" detail false (none_left (add "root" false detail) rest z).0)

        go :
            (valid : Bool)
            → Sound At
                (do
                  rest ← (if valid then check_files m host root else pure [])
                  pure (add "root" valid detail ++ rest))
                ((valid ≡ true) × Complete root)
        go true = Triple-bind (check_files-Sound root) λ rest.
            Triple-given
              λ complete. Triple-pure _ (λ v k. (k, λ z. (refl, complete (rest_left _ rest z))))
        go false =
            Triple-bind (Triple-pure {P = At} {E = λ _ v. Unit} [] {Q = λ _. At} (λ v k. k))
              λ rest. Triple-pure _ (λ v k. (k, λ z. absurd (no_root rest z)))

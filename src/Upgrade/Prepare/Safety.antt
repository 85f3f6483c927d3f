-- ===== src/Upgrade/Prepare/Safety.antt =====
-- The preparation as a whole: what it leaves in the register and in the bundle.
use package.text.Mathlib.TextPositions.{starts_with-append}
use package.text.Mathlib.TextEquality.{eq_iff}
use see_size.Script.Files.{rmtree}
use see_size.Base.{
  String, ◌<>◌, string_eq, list_eq, nat_eq, ◌≡◌, refl, ◌≢◌, ◌⊎◌, ◌∙◌, inl, inr, sym, ap, subst,
  Bool, true, false, Option, none, some, [], arith, contains, length, if◌then◌else◌, starts_with,
}
use see_size.Base.Dict.{keys}
use see_size.Fs.{FilePath, ◌//◌, Bytes, under}
use see_size.Fs.Laws.{under_cons, under_short}
use see_size.Json.{Json}
use see_size.Script.{Machine, World, Exc, Action, ok, pure, raise, ◌>>◌, or_raise, value_error}
use see_size.Script.Rules.{
  Outcome, Triple, Keeps, Triple-bind, Triple-weaken, Triple-each, Triple-given, Triple-raise_if,
  Triple-pure, Triple-and, Triple-catch, Keeps-and, Keeps-pure, Keeps-raise_if, Triple-raise,
  Keeps-gets, lift_lem, Triple-beside,
}
use see_size.Script.Frame.{Holds, read-Keeps, read_known}
use see_size.Script.Frame.Keep.{mkdir-Holds, rmtree-Holds}
use see_size.Upgrade.{atomic_json}
use see_size.Upgrade.Atomic.{atomic_json-Holds, atomic_json-Triple}
use see_size.Upgrade.Prepare.{
  Args, Ready, register, program_name, append, registered, entry, make_bundle, keep_programs,
  commit, main, read_json, refuse_registered,
}
use see_size.Upgrade.Prepare.Frame.{
  Confined, Requested, lock-Holds, check_lem, commit-Holds, copy2-Holds, stage_candidate-Holds,
  not_in, in_bundle, read_configs-Confined, run_checked-Confined, old_hashes-Keeps,
}
use see_size.Upgrade.Prepare.Bundle.{Stage, Staged, StagedSoFar, StagedSoFar-Keeps, stage_all}

files_differ : ◌≢◌ {A = String} "maintenance-artifacts.json" ".maintenance.lock"
files_differ = ground (arith, eq_iff "maintenance-artifacts.json" ".maintenance.lock")

-- The register has one more entry, the bundle's.
abbrev pub Extended : Machine → FilePath → String → Json → World → Type 0
Extended m root release entries w =
    (created : String) × ((all : Json) × ((append entries (entry m ("pre-" <> release) created)
          ≡ ok all)
        × Holds (register root) (m.dump_indented all) w))

module _ (m : Machine) (r : Ready) (at : r.target ≡ r.root // ("pre-" <> r.release))
    (calm : Confined m r.target) where
  register_ne : "maintenance-artifacts.json" ≢ "pre-" <> r.release
  register_ne e = cc (
      subst (λ (t : String). starts_with t "pre-" ≡ true) (sym e)
        (starts_with-append "pre-" r.release))

  outside : under r.target (register r.root) ≡ false
  outside = rw at (
      under_cons (r.root // ("pre-" <> r.release)) r.root "maintenance-artifacts.json"
        (λ e. register_ne (ground arith))
        (under_short (r.root // ("pre-" <> r.release)) r.root (omega arith)))

  stage_ne_register : (c : String) → Stage m r // program_name c ≢ register r.root
  stage_ne_register c e =
      omega (arith, ap (λ (p : FilePath). length p) e, ap (λ (p : FilePath). length p) at)

  stage-ne_file : (c n : String) → Stage m r // program_name c ≢ r.target // n
  stage-ne_file c n e = omega (arith, ap (λ (p : FilePath). length p) e)

  stage-ne_target : Stage m r ≢ r.target
  stage-ne_target e = omega (arith, ap (λ (p : FilePath). length p) e)

  module _ (old : Bytes) (entries : Json) where
    abbrev Before : World → Type 0
    Before = Holds (register r.root) old

    abbrev Both : World → Type 0
    Both w = Before w × StagedSoFar m r [] w

    abbrev Either : World → Type 0
    Either w = Before w ⊎ Extended m r.root r.release entries w

    before :
        {A : Type 0} {act : Action A} {P : World → Type 0} {Q : A → World → Type 0}
        → Triple P act Q (λ _. Before)
        → Triple P act Q (λ _. Either)
    before t = Triple-weaken (λ w k. k) (λ a w k. k) (λ e w k. inl k) t

    both :
        {A : Type 0} {act : Action A}
        → Keeps Before act
        → ((c : String) (b : Bytes) → Keeps (Holds (Stage m r // program_name c) b) act)
        → Triple Both act (λ _. Both) (λ _. Either)
    both s t =
        Triple-weaken (λ w k. k) (λ a w k. k) (λ e w k. inl k.0)
          (Keeps-and s (StagedSoFar-Keeps m r [] t))

    apart : r.root ≢ r.target
    apart e = omega (arith, ap (λ (p : FilePath). length p) (e ∙ at))

    write_file :
        (n : String) (body : Bytes)
        → Triple Both (atomic_json m (r.target // n) body) (λ _. Both) (λ _. Either)
    write_file n body =
        both
          (atomic_json-Holds m _ body (register r.root)
            (not_in m r calm r.root _ old outside _ (in_bundle m r calm r.root _ old outside n)))
          λ c b. atomic_json-Holds m _ body (Stage m r // program_name c) (stage-ne_file c n)

    make_bundle-Triple :
        Triple Before
          (make_bundle m r entries)
          (λ _ w. Extended m r.root r.release entries w × StagedSoFar m r [] w)
          (λ _. Either)
    unfolding make_bundle keep_programs
    make_bundle-Triple =
        Triple-bind
          (before (
            Triple-each (λ _. Before)
              (λ c _. copy2-Holds m r calm r.root _ old outside _ _ (
                not_in m r calm r.root _ old outside _
                  (in_bundle m r calm r.root _ old outside (program_name c))))
              _))
          λ _. Triple-bind (before (mkdir-Holds m (register r.root) _ _)) λ _.
            Triple-bind
              (before (
                Triple-weaken (λ w k. (k, tt)) (λ _ w k. k) (λ _ w k. k)
                  (Triple-beside
                    (Triple-each (λ _. Before)
                      (λ x _. stage_candidate-Holds m r calm r.root _ old outside x) _)
                    (stage_all m r))))
              λ _.
                Triple-bind
                  (both (read_configs-Confined m r.target calm r.root _ apart _) λ c b.
                    read_configs-Confined m r.target calm (Stage m r) (program_name c)
                      stage-ne_target _)
                  λ configs. Triple-bind (write_file _ _) λ _.
                    Triple-bind
                      (both (run_checked-Confined m r.target calm r.root _ apart _) λ c b.
                        run_checked-Confined m r.target calm (Stage m r) (program_name c)
                          stage-ne_target _)
                      λ shown.
                        Triple-bind (both (old_hashes-Keeps m _ _) λ c b. old_hashes-Keeps m _ _)
                          λ hashes. Triple-bind (both (Keeps-gets _) λ c b. Keeps-gets _) λ files.
                            Triple-bind (both (Keeps-raise_if _ _) λ c b. Keeps-raise_if _ _) λ _.
                              Triple-bind {Q = λ _. Both} (record { run = λ w k. k })
                                λ created. Triple-bind (write_file _ _) λ _.
                                  Triple-bind
                                    (Triple-weaken (λ w k. k) (λ _ w k. k) (λ _ w k. inl k.0)
                                      (lift_lem _))
                                    λ all. Triple-given λ added. finish created all added
      where
        finish :
            (created : String) (all : Json)
            → append entries (entry m ("pre-" <> r.release) created) ≡ ok all
            → Triple Both
                (atomic_json m (register r.root) (m.dump_indented all))
                (λ _ w. Extended m r.root r.release entries w × StagedSoFar m r [] w)
                (λ _. Either)
        finish created all added =
            Triple-weaken (λ w k. k) (λ _ w k. ((created, (all, (added, k.0))), k.1))
              (λ _ w k. elim k.0 [ inl o ↦ inl o | inr n ↦ inr (created, (all, (added, n))) ])
              (Triple-and (atomic_json-Triple m (register r.root) (m.dump_indented all)) (
                StagedSoFar-Keeps m r [] λ c b.
                  atomic_json-Holds m _ _ (Stage m r // program_name c) (stage_ne_register c)))

-- The register is the old one, or has one more entry.
abbrev pub Stopped : Machine → FilePath → String → Bytes → World → Type 0
Stopped m root release old w =
    Holds (register root) old w
    ⊎ ((entries : Json) × ((m.loads old ≡ some entries) × Extended m root release entries w))

module _ (m : Machine) (r : Ready) (old : Bytes) where
  -- The register is the old one with one more entry, of a name that it did not have, and the bundle
  -- has a candidate for each component that was asked for, which passed its check there.
  pub record Prepared (w : World) : Type 0 where
    pub entries : Json
    pub parsed : m.loads old ≡ some entries
    pub fresh : registered entries ("pre-" <> r.release) ≡ ok false
    pub extended : Extended m r.root r.release entries w
    pub staged : (c : String) → contains (keys r.candidates) c ≡ true → Staged m r c w

  module _ (at : r.target ≡ r.root // ("pre-" <> r.release)) (calm : Confined m r.target) where
    unmoved :
        {A : Type 0} {act : Action A} {P : World → Type 0} {Q : A → World → Type 0}
        → Triple P act Q (λ _. Holds (register r.root) old)
        → Triple P act Q (λ _. Stopped m r.root r.release old)
    unmoved t = Triple-weaken (λ w k. k) (λ a w k. k) (λ e w k. inl k) t

    undo :
        (entries : Json)
        → m.loads old ≡ some entries
        → (e : Exc)
        → Triple
            (Either m r at calm old entries)
            (do rmtree m r.target; raise {A = Unit {0}} e)
            (λ _. Prepared)
            (λ _. Stopped m r.root r.release old)
    undo entries parsed e = record { run = go }
      where
        kept : (b : Bytes) → Keeps (Holds (register r.root) b) (rmtree m r.target)
        kept b = rmtree-Holds m (register r.root) r.target (outside m r at calm)

        go :
            (w : World)
            → Either m r at calm old entries w
            → Outcome {A = Unit}
                (λ _. Prepared)
                (λ _. Stopped m r.root r.release old)
                ((rmtree m r.target >> raise e) w)
        go w (inl o) = (Triple-bind (unmoved (kept old)) λ _. Triple-raise e (λ v k. inl k)).run w o
        go w (inr (created, (all, (added, h)))) =
            (Triple-bind {Q = λ _. Holds (register r.root) (m.dump_indented all)}
                (Triple-weaken (λ v k. k) (λ _ v k. k)
                  (λ _ v k. inr (entries, (parsed, (created, (all, (added, k))))))
                  (kept (m.dump_indented all)))
                λ _.
                  Triple-raise e (λ v k. inr (entries, (parsed, (created, (all, (added, k))))))).run
              w h

    parse :
        Triple
          (Holds (register r.root) old)
          (read_json m (register r.root))
          (λ j w. Holds (register r.root) old w × (m.loads old ≡ some j))
          (λ _. Holds (register r.root) old)
    unfolding read_json
    parse =
        Triple-bind
          (Triple-weaken (λ w k. (k, k)) (λ _ w k. k) (λ _ w k. k)
            (Triple-beside (read-Keeps m _) (read_known m (register r.root))))
          λ raw. record { run = λ w k. go w k.0 raw k.1.1 (m.loads raw) refl }
      where
        go :
            (w : World)
            → Holds (register r.root) old w
            → (raw : Bytes) → raw ≡ old
            → (o : Option Json) → m.loads raw ≡ o
            → Outcome
                (λ j v. Holds (register r.root) old v × (m.loads old ≡ some j))
                (λ _. Holds (register r.root) old)
                (or_raise o (value_error "JSONDecodeError") w)
        go w k raw same none e = k
        go w k raw same (some j) e = (k, rw (← same) e)

    refuse_registered-fresh :
        (entries : Json)
        → Triple
            (Holds (register r.root) old)
            (refuse_registered m entries ("pre-" <> r.release))
            (λ _ w.
              Holds (register r.root) old w × (registered entries ("pre-" <> r.release) ≡ ok false))
            (λ _. Holds (register r.root) old)
    unfolding refuse_registered
    refuse_registered-fresh entries =
        Triple-bind (lift_lem (registered entries ("pre-" <> r.release))) λ known.
          Triple-given λ found. Triple-raise_if known _ (λ w k e. k) (λ w k e. (k, rw e at found))

    lock_ne : register r.root ≢ r.root // ".maintenance.lock"
    lock_ne e = files_differ (ground arith)

    commit-Triple :
        Triple
          (Holds (register r.root) old)
          (commit m r)
          (λ _. Prepared)
          (λ _. Stopped m r.root r.release old)
    unfolding commit
    commit-Triple =
        Triple-bind (unmoved (lock-Holds m r calm r.root _ old (outside m r at calm) lock_ne)) λ _.
          Triple-bind (unmoved parse) λ entries. Triple-given λ parsed.
            Triple-bind (unmoved (refuse_registered-fresh entries)) λ _. Triple-given λ fresh.
              Triple-bind (unmoved (mkdir-Holds m (register r.root) _ _)) λ _.
                Triple-catch
                  (Triple-weaken (λ w k. k)
                    (λ _ w k. record {
                      entries = entries;
                      parsed = parsed;
                      fresh = fresh;
                      extended = k.0;
                      staged = λ c i. k.1 c i refl;
                    })
                    (λ _ w k. k) (make_bundle-Triple m r at calm old entries))
                  (undo entries parsed)

-- Where the bundle of a command line is made.
abbrev pub target_of : Machine → Args → FilePath
target_of m args = m.absolute args.root // ("pre-" <> args.release)

-- What the command line asks to prepare.
pub record Given (m : Machine) (args : Args) (r : Ready) : Type 0 where
  pub root_given : r.root ≡ m.absolute args.root
  pub release_given : r.release ≡ args.release
  pub target_given : r.target ≡ target_of m args
  pub requested : Requested args r

-- Without `--prepare` nothing has changed; with it the bundle is there and registered.
pub data Finished (m : Machine) (args : Args) (old : Bytes) (w : World) : Type 0 where
  validated :
      args.prepare ≡ false → Holds (register (m.absolute args.root)) old w → Finished m args old w
  prepared :
      (r : Ready)
      → args.prepare ≡ true
      → Given m args r
      → Prepared m r old w
      → Finished m args old w

-- Whatever call of `main` fails or is interrupted, the register is then the old one or has one more
-- entry, whole. It returns without `--prepare` only with the old register, and with it only if the
-- register has one more entry, of a name that it did not have, and the bundle of this release has a
-- candidate for each component that `--candidate` names, which is an ELF file with the hash that
-- `--sha256` gives for it. The register is a regular file before, and commands write only directly in
-- the bundle's folder.
pub main_lem :
    (m : Machine) (args : Args) (old : Bytes) (w : World)
    → Confined m (target_of m args)
    → Holds (register (m.absolute args.root)) old w
    → Outcome
        (λ _. Finished m args old)
        (λ _. Stopped m (m.absolute args.root) args.release old)
        (main m args w)
unfolding main
main_lem m args old w calm k =
    (Triple-bind (Triple-weaken (λ w k. k) (λ _ w k. k) (λ _ w k. inl k) (check_lem m args))
        λ r. Triple-given λ fits. go r fits args.prepare refl).run
      w k
  where
    go :
        (r : Ready)
        → (r.root ≡ m.absolute args.root)
          × (r.release ≡ args.release)
          × (r.target ≡ r.root // ("pre-" <> r.release))
          × Requested args r
        → (b : Bool) → args.prepare ≡ b
        → Triple
            (Holds (register (m.absolute args.root)) old)
            (if b then commit m r else pure tt)
            (λ _. Finished m args old)
            (λ _. Stopped m (m.absolute args.root) args.release old)
    go r (at, label, place, asked) false e = Triple-pure tt (λ v j. validated e j)
    go r (at, label, place, asked) true e =
        let confined : Confined m r.target = rw (place, at, label) calm in
        Triple-weaken (λ v j. rw at j)
          (λ _ v j.
            prepared r e
              (record {
                root_given = at;
                release_given = label;
                target_given = place ∙ rw at (rw label refl);
                requested = asked;
              })
              j)
          (λ _ v j. rw (← at) (rw (← label) j)) (commit-Triple m r old place confined)

-- Any file but the lock and the register that is not in the bundle keeps its bytes, whether `main`
-- returns or raises: so do the running programs and the database. Commands write only directly in
-- the bundle's folder.
pub main-Holds :
    (m : Machine) (args : Args) (d : FilePath) (n : String) (b : Bytes) (w : World)
    → Confined m (target_of m args)
    → under (target_of m args) (d // n) ≡ false
    → d // n ≢ register (m.absolute args.root)
    → d // n ≢ m.absolute args.root // ".maintenance.lock"
    → Holds (d // n) b w
    → Outcome (λ _. Holds (d // n) b) (λ _. Holds (d // n) b) (main m args w)
unfolding main
main-Holds m args d n b w calm outside other unlocked k =
    (Triple-bind (check_lem m args) λ r. Triple-given λ fits. go r fits args.prepare).run w k
  where
    go :
        (r : Ready)
        → (r.root ≡ m.absolute args.root)
          × (r.release ≡ args.release)
          × (r.target ≡ r.root // ("pre-" <> r.release))
          × Requested args r
        → (c : Bool) → Keeps (Holds (d // n) b) (if c then commit m r else pure tt)
    go r (at, label, place, asked) false = Keeps-pure tt
    go r (at, label, place, asked) true =
        commit-Holds m r (rw (place, at, label) calm) d n b (rw (place, at, label) outside)
          (λ e. other (e ∙ ap (λ (p : FilePath). register p) at))
          (λ e. unlocked (e ∙ ap (λ (p : FilePath). p // ".maintenance.lock") at))

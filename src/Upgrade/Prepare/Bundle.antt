-- ===== src/Upgrade/Prepare/Bundle.antt =====
-- The candidates in a new bundle have passed the check against their hashes, as they lie there.
use text.Mathlib.TextLemmas.{append_cancel_left, append_cancel_right}
use see_size.Base.{
  String, ◌==◌, string_eq, list_eq, nat_eq, ◌≡◌, ◌≢◌, ap, true, false, not, some, [], ◌∷◌, arith,
  map, contains,
}
use see_size.Base.Text.{codes}
use see_size.Base.Dict.{Dict, lookup, keys}
use see_size.Fs.{FilePath, ◌//◌, Bytes}
use see_size.Script.{Machine, World, crash, Action, each}
use see_size.Script.Checked.{or_refuse}
use see_size.Script.Success.{or_refuse-ok}
use see_size.Script.Rules.{
  quiet, Triple-some, Triple, Keeps, Triple-bind, Triple-weaken, Triple-each, Triple-given,
  Triple-raise_if, Triple-pure, Triple-and, Keeps-all, Keeps-some, Keeps-fact, Keeps-pure,
  Keeps-raise_if, lift-Keeps, lift_lem,
}
use see_size.Script.Frame.{copy_done, read_known, Holds}
use see_size.Script.Frame.Keep.{copy_file-Holds, chmod-Holds}
use see_size.Setup.Cache.Slots.{refuse-Keeps}
use see_size.Setup.Checks.Binary.{not_elf}
use see_size.Upgrade.{validate_candidate, digest, lower}
use see_size.Upgrade.Prepare.{Ready, program_name, stage_candidate}
use see_size.Upgrade.Prepare.Frame.{validate_candidate-Keeps}

pub program_name-ne : (c x : String) → c ≢ x → program_name c ≢ program_name x
program_name-ne c x h e =
    h (append_cancel_right c x "-linux-amd64" (append_cancel_left "seesize-" _ _ e))

-- An ELF file with the hash, in whatever case its digits are written.
abbrev pub Passed : Machine → Bytes → String → Type 0
Passed m body h = (not_elf body ≡ false) × (codes (m.sha256 body) ≡ map lower (codes h))

module _ (m : Machine) where
  validate_candidate-Triple :
      (p : FilePath) (h : String) {b : Bytes}
      → Triple
          (Holds p b)
          (validate_candidate m p h)
          (λ _ w. Holds p b w × Passed m b h)
          (λ _ w. Unit)
  unfolding validate_candidate digest
  validate_candidate-Triple p h {b} = Triple-bind (quiet (Keeps-raise_if _ _)) λ _.
      Triple-bind (quiet (refuse-Keeps _ _ _)) λ _. Triple-bind (quiet (refuse-Keeps _ _ _)) λ _.
        Triple-bind (read_known m p) λ header. Triple-given λ same.
          Triple-bind
            (Triple-raise_if (not_elf header) _ {Q = λ _ w. Holds p b w × (not_elf header ≡ false)}
              (λ w k e. tt) (λ w k e. (k, e)))
            λ _. Triple-given λ elf.
              Triple-bind
                (Triple-bind (read_known m p)
                  λ body. Triple-pure (m.sha256 body) (λ w k. (k.0, ap m.sha256 k.1)))
                λ actual. Triple-given {F = actual ≡ m.sha256 b} λ hashed.
                  Triple-bind
                    (Triple-raise_if (not (codes actual == map lower (codes h))) _
                      {Q = λ _ w. Holds p b w × (codes actual ≡ map lower (codes h))} (λ w k e. tt)
                      (λ w k e. (k, ground arith)))
                    λ _.
                      Triple-given
                        λ fits. Triple-pure p (λ w k. (k, (rw (← same) elf, rw (← hashed) fits)))

  module _ (r : Ready) where
    abbrev pub Stage : FilePath
    Stage = r.target // "candidates"

    -- The candidate of a component, as it lies in the bundle.
    abbrev pub Staged : String → World → Type 0
    Staged c w =
        (body : Bytes) × (Holds (Stage // program_name c) body w
          × ((h : String) × (lookup c r.hashes ≡ some h) × Passed m body h))

    abbrev pub StagedSoFar : Dict String FilePath → World → Type 0
    StagedSoFar xs w =
        (c : String)
        → contains (keys r.candidates) c ≡ true
        → contains (keys xs) c ≡ false
        → Staged c w

    pub StagedSoFar-Keeps :
        (xs : Dict String FilePath) {A : Type 0} {act : Action A}
        → ((c : String) (b : Bytes) → Keeps (Holds (Stage // program_name c) b) act)
        → Keeps (StagedSoFar xs) act
    StagedSoFar-Keeps xs k = Keeps-all _ λ c. Keeps-all _ λ i. Keeps-all _ λ out.
        Keeps-some
          (λ b w.
            Holds (Stage // program_name c) b w
            × ((h : String) × (lookup c r.hashes ≡ some h) × Passed m b h))
          λ b. Keeps-fact (k c b)

    place_ne : (c x : String) → c ≢ x → Stage // program_name c ≢ Stage // program_name x
    place_ne c x h e = program_name-ne c x h (ground arith)

    -- A candidate is checked where it lies, after it was copied.
    stage_new :
        (c : String) (p : FilePath)
        → Triple (λ w. Unit) (stage_candidate m Stage r.hashes (c, p)) (λ _. Staged c) (λ _ w. Unit)
    unfolding stage_candidate
    stage_new c p = Triple-bind (copy_done m p (Stage // program_name c)) λ _. Triple-some λ b.
        Triple-bind (quiet (chmod-Holds m (Stage // program_name c) _ _)) λ _.
          Triple-bind (quiet (lift_lem (or_refuse (lookup c r.hashes) crash))) λ h.
            Triple-given λ found.
              Triple-bind (validate_candidate-Triple (Stage // program_name c) h)
                λ path. Triple-pure tt (λ w k. (b, (k.0, (h, or_refuse-ok _ _ found, k.1))))

    stage_candidate-Holds :
        (q : FilePath) (b : Bytes) (c : String) (p : FilePath)
        → q ≢ Stage // program_name c
        → Keeps (Holds q b) (stage_candidate m Stage r.hashes (c, p))
    unfolding stage_candidate
    stage_candidate-Holds q b c p ne = Triple-bind (copy_file-Holds m q p _ ne) λ _.
        Triple-bind (chmod-Holds m q _ _) λ _.
          Triple-bind (lift-Keeps _)
            λ hash. Triple-bind (validate_candidate-Keeps m _ hash) λ path. Keeps-pure tt

    stage_one :
        (x : String × FilePath) (xs : Dict String FilePath)
        → Triple
            (StagedSoFar (x ∷ xs))
            (stage_candidate m Stage r.hashes x)
            (λ _. StagedSoFar xs)
            (λ _ w. Unit)
    stage_one (x, p) xs =
        Triple-weaken (λ w k. (λ c ne i out. k c i out, tt))
          (λ _ w k c i out. elim (string_eq.dec c x) [
            | yes e ↦ rw e k.1
            | no ne ↦ k.0 c ne i (ground arith)
          ])
          (λ _ w k. tt)
          (Triple-and
            {P = λ w.
              (c : String)
              → c ≢ x
              → contains (keys r.candidates) c ≡ true
              → contains (keys ((x, p) ∷ xs)) c ≡ false
              → Staged c w}
            {P' = λ w. Unit}
            (Keeps-all _ λ c. Keeps-all _ λ ne. Keeps-all _ λ i. Keeps-all _ λ out.
              Keeps-some
                (λ b w.
                  Holds (Stage // program_name c) b w
                  × ((h : String) × (lookup c r.hashes ≡ some h) × Passed m b h))
                λ b.
                  Keeps-fact
                    (stage_candidate-Holds (Stage // program_name c) b x p (place_ne c x ne)))
            (stage_new x p))

    pub stage_all :
        Triple
          (λ w. Unit)
          (each r.candidates (stage_candidate m Stage r.hashes))
          (λ _. StagedSoFar [])
          (λ _ w. Unit)
    stage_all =
        Triple-weaken (λ w k c i out. cc) (λ _ w k. k) (λ _ w k. k)
          (Triple-each StagedSoFar stage_one r.candidates)

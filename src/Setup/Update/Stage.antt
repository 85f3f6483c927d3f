-- ===== src/Setup/Update/Stage.antt =====
-- What `stage` puts into the workspace: a verified package. The installed files are left alone.
use see_size.Base.{
  String, string_eq, list_eq, ◌≡◌, refl, ◌≢◌, ap, subst, Bool, true, false, Option, none, some,
  List, [], ◌∷◌, arith, contains, length, ltb, ◌≤◌, Bool-cases, inl, inr,
}
use text.Mathlib.TextEquality.{eq_iff}
use see_size.Fs.{FilePath, ◌//◌, Bytes, under, content}
use see_size.Fs.Laws.{under_cons, under_short}
use see_size.Script.{Machine, World, Action, Result, ok, err, ◌>>◌}
use see_size.Script.Rules.{
  quiet, Outcome, Triple, Keeps, Keeps-and, Triple-and, Triple-weaken, Keeps-all, Keeps-some,
  Triple-each, Triple-bind, Triple-given, Keeps-raise_if, Triple-raise_if, lift-Keeps, lift_lem,
  Triple-beside, Keeps-fact,
}
use see_size.Script.Frame.{write_done, copy_done, Holds, read_lem}
use see_size.Script.Frame.Keep.{write-Holds, mkdir-Holds, copy_file-Holds}
use see_size.Script.Files.{write, copy_file}
use see_size.Setup.{root, cache, components, package_files, max_binary}
use see_size.Setup.Checks.Manifest.{Release, manifest, hash_of}
use see_size.Setup.Checks.Binary.{validate_binary}
use see_size.Setup.Fetch.Retry.{fetch-Keeps}
use see_size.Setup.Cache.Slots.{release_binary-Triple}
use see_size.Setup.Update.{candidate_of, obtain, stage_program, stage}
use see_size.Setup.Update.Slots.{InPackage, Root, Folder, Work}

-- The manifest is one for the requested version, and each program is an ELF file with the hash that it
-- states, not larger than what is allowed.
pub record IsPackage (m : Machine) (target : String) (c : String → Bytes) : Type 0 where
  pub release : Release
  pub manifest_fits : manifest m (c "agent-release.json") target ≡ ok release
  pub programs_fit :
      (n : String)
      → contains components n ≡ true
      → (h : String) × (hash_of release n ≡ ok h)
        × (validate_binary m (c n) h ≡ ok tt)
        × (length (c n) ≤ max_binary)

names_differ : ◌≢◌ {A = String} "cache" "seesize-agent"
names_differ = ground (arith, eq_iff "cache" "seesize-agent")

outside_cache : (n : String) → under cache (root // n) ≡ false
outside_cache n =
    under_cons cache root n (λ e. names_differ (ground arith))
      (under_short cache root (omega arith))

module _ (m : Machine) (s : String) where
  abbrev Staging : FilePath
  Staging = candidate_of (Work s)

  obtain-Keeps :
      {I : World → Type 0} (bundle : Option FilePath) (name : String) {act : Action Bytes}
      → Keeps I act
      → Keeps I (obtain m bundle name act)
  unfolding obtain
  obtain-Keeps none name k = k
  obtain-Keeps (some d) name k = Triple-weaken (λ w k. k) (λ _ w k. k.0) (λ _ w k. k) (read_lem m _)

  -- The installed files, one by one.
  module _ (q : FilePath) (b : Bytes) (outside : under cache q ≡ false)
      (apart : (x : String) → q ≢ Staging // x) where
    stage_program-Holds :
        (r : Release) (target : String) (bundle : Option FilePath) (n : String)
        → Keeps (Holds q b) (stage_program m Staging r target bundle n)
    unfolding stage_program
    stage_program-Holds r target bundle n = Triple-bind (lift-Keeps (hash_of r n)) λ h.
        Triple-bind
          (obtain-Keeps bundle n (
            Triple-weaken (λ w k. k) (λ _ w k. k.0) (λ _ w k. k)
              (release_binary-Triple m q outside target n h)))
          λ body. Triple-bind (Keeps-raise_if _ _) λ _.
            Triple-bind (lift-Keeps (validate_binary m body h))
              λ _. write-Holds m q (Staging // n) body 0o644 (apart n)

    stage-Holds :
        (target : String) (bundle : Option FilePath)
        → Keeps (Holds q b) (stage m (Work s) target bundle)
    unfolding stage
    stage-Holds target bundle = Triple-bind (mkdir-Holds m q _ _) λ _.
        Triple-bind (mkdir-Holds m q _ _) λ _.
          Triple-bind (obtain-Keeps bundle _ (fetch-Keeps m _ _ (λ fs. content fs q ≡ some b)))
            λ raw. Triple-bind (lift-Keeps (manifest m raw target)) λ r.
              Triple-bind
                (Triple-each (λ _. Holds q b) (λ n _. stage_program-Holds r target bundle n)
                  components)
                λ _.
                  Triple-bind (write-Holds m q _ raw 0o644 (apart _))
                    λ _. copy_file-Holds m q _ _ (apart _)

  pub stage-Root :
      (c : String → Bytes) (target : String) (bundle : Option FilePath)
      → Keeps (Root c) (stage m (Work s) target bundle)
  stage-Root c target bundle = Keeps-all _ λ n. Keeps-all _ λ i.
      stage-Holds (root // n) (c n) (outside_cache n)
        (λ x e. omega (arith, ap (λ (p : FilePath). length p) e)) target bundle

  -- What the checks said of a program.
  abbrev Checked : Release → String → Bytes → Type 0
  Checked r n b =
      (h : String) × (hash_of r n ≡ ok h)
      × (validate_binary m b h ≡ ok tt)
      × (length b ≤ max_binary)

  abbrev Fits : Release → String → World → Type 0
  Fits r n w = (b : Bytes) × (Holds (Staging // n) b w × Checked r n b)

  abbrev FitsSoFar : Release → List String → World → Type 0
  FitsSoFar r xs w =
      (n : String) → contains components n ≡ true → contains xs n ≡ false → Fits r n w

  staged_ne : (n x : String) → n ≢ x → Staging // n ≢ Staging // x
  staged_ne n x h e = ground arith

  Fits-write :
      (r : Release) (n x : String) (body : Bytes)
      → n ≢ x
      → Keeps (Fits r n) (write m (Staging // x) body 0o644)
  Fits-write r n x body h =
      Keeps-some (λ b w. Holds (Staging // n) b w × Checked r n b)
        λ b. Keeps-fact (write-Holds m (Staging // n) _ body 0o644 (staged_ne n x h))

  FitsSoFar-Keeps :
      (r : Release) (xs : List String) {A : Type 0} {act : Action A}
      → ((n : String) (b : Bytes) → Keeps (Holds (Staging // n) b) act)
      → Keeps (FitsSoFar r xs) act
  FitsSoFar-Keeps r xs k = Keeps-all _ λ n. Keeps-all _ λ i.
      Keeps-all _
        λ out. Keeps-some (λ b w. Holds (Staging // n) b w × Checked r n b) λ b. Keeps-fact (k n b)

  staged_outside : (n : String) → under cache (Staging // n) ≡ false
  staged_outside n =
      under_cons cache _ n (λ e. omega (arith, ap (λ (p : FilePath). length p) e))
        (under_cons cache _ _ (λ e. omega (arith, ap (λ (p : FilePath). length p) e))
          (outside_cache s))

  -- A program passes its check before it is written.
  stage_program_done :
      (r : Release) (target : String) (bundle : Option FilePath) (x : String) (xs : List String)
      → Triple
          (FitsSoFar r (x ∷ xs))
          (stage_program m Staging r target bundle x)
          (λ _. FitsSoFar r xs)
          (λ _ w. Unit)
  unfolding stage_program
  stage_program_done r target bundle x xs = Triple-bind (quiet (lift_lem (hash_of r x))) λ h.
      Triple-given λ stated.
        Triple-bind
          (quiet (
            obtain-Keeps bundle x (
              FitsSoFar-Keeps r (x ∷ xs) λ n b.
                Triple-weaken (λ w k. k) (λ _ w k. k.0) (λ _ w k. k)
                  (release_binary-Triple m (Staging // n) (staged_outside n) target x h))))
          λ body.
            Triple-bind
              (Triple-raise_if (ltb max_binary (length body)) _
                {Q = λ _ w. FitsSoFar r (x ∷ xs) w × (length body ≤ max_binary)} (λ w k e. tt)
                (λ w k e. (k, ground (arith, e))))
              λ _. Triple-given λ small.
                Triple-bind (quiet (lift_lem (validate_binary m body h)))
                  λ _. Triple-given λ valid. write_program body (h, stated, valid, small)
    where
      write_program :
          (body : Bytes)
          → Checked r x body
          → Triple
              (FitsSoFar r (x ∷ xs))
              (write m (Staging // x) body 0o644)
              (λ _. FitsSoFar r xs)
              (λ _ w. Unit)
      write_program body valid =
          Triple-weaken (λ w k. (λ n ne i out. k n i out, tt))
            (λ _ w k n i out. elim (string_eq.dec n x) [
              | yes e ↦ (body, (rw e k.1, rw e valid))
              | no ne ↦ k.0 n ne i (ground arith)
            ])
            (λ _ w k. tt)
            (Triple-and
              {P = λ w.
                (n : String)
                → n ≢ x
                → contains components n ≡ true
                → contains (x ∷ xs) n ≡ false
                → Fits r n w}
              {P' = λ w. Unit}
              (Keeps-all _
                λ n. Keeps-all _ λ ne. Keeps-all _ λ i. Keeps-all _ λ out. Fits-write r n x body ne)
              (write_done m (Staging // x) body 0o644))

  manifest_name_ne : (n : String) → contains components n ≡ true → n ≢ "agent-release.json"
  unfolding string_eq
  manifest_name_ne n i e = cc (subst (λ (x : String). contains components x ≡ true) e i)

  tool_name_ne : (n : String) → contains components n ≡ true → n ≢ "agent-setup.py"
  unfolding string_eq
  tool_name_ne n i e = cc (subst (λ (x : String). contains components x ≡ true) e i)

  files_differ : ◌≢◌ {A = String} "agent-release.json" "agent-setup.py"
  files_differ = ground (arith, eq_iff "agent-release.json" "agent-setup.py")

  -- The programs with their checks, the manifest, and the tool.
  abbrev Complete : String → Release → Bytes → World → Type 0
  Complete target r raw w =
      FitsSoFar r [] w
      × Holds (Staging // "agent-release.json") raw w
      × ((tool : Bytes) × Holds (Staging // "agent-setup.py") tool w)

  finish_stage :
      (target : String) (r : Release) (raw : Bytes)
      → Triple
          (FitsSoFar r [])
          (do
            write m (Staging // "agent-release.json") raw 0o644
            copy_file m m.own_file (Staging // "agent-setup.py"))
          (λ _. Complete target r raw)
          (λ _ w. Unit)
  finish_stage target r raw =
      Triple-bind
        (Triple-weaken (λ w k. (k, tt)) (λ _ w k. k) (λ _ w k. tt)
          (Triple-beside
            (Keeps-all _ λ n. Keeps-all _ λ i.
              Keeps-all _ λ out. Fits-write r n "agent-release.json" raw (manifest_name_ne n i))
            (write_done m (Staging // "agent-release.json") raw 0o644)))
        λ _.
          Triple-weaken (λ w k. (k, tt)) (λ _ w k. (k.0.0, k.0.1, k.1)) (λ _ w k. tt)
            (Triple-beside
              (Keeps-and
                (Keeps-all _ λ n. Keeps-all _ λ i. Keeps-all _ λ out.
                  Keeps-some (λ b w. Holds (Staging // n) b w × Checked r n b)
                    λ b. Keeps-fact (
                      copy_file-Holds m (Staging // n) _ _
                        (staged_ne n "agent-setup.py" (tool_name_ne n i))))
                (copy_file-Holds m (Staging // "agent-release.json") _ _
                  (staged_ne "agent-release.json" "agent-setup.py" files_differ)))
              (copy_done m m.own_file (Staging // "agent-setup.py")))

  stage_done :
      (target : String) (bundle : Option FilePath)
      → Triple
          (λ w. Unit)
          (stage m (Work s) target bundle)
          (λ _ w.
            (raw : Bytes) × ((r : Release) × ((manifest m raw target ≡ ok r)
                × Complete target r raw w)))
          (λ _ w. Unit)
  unfolding stage
  stage_done target bundle = Triple-bind (anything _) λ _. Triple-bind (anything _) λ _.
      Triple-bind (anything _) λ raw. Triple-bind (quiet (lift_lem (manifest m raw target))) λ r.
        Triple-given λ fits.
          Triple-bind
            (Triple-weaken (λ w k n i out. cc) (λ _ w k. k) (λ _ w k. k)
              (Triple-each (FitsSoFar r) (stage_program_done r target bundle) components))
            λ _.
              Triple-weaken (λ w k. k) (λ _ w k. (raw, (r, (fits, k)))) (λ _ w k. tt)
                (finish_stage target r raw)
    where
      anything : {A : Type 0} (act : Action A) → Triple (λ w. Unit) act (λ _ w. Unit) (λ _ w. Unit)
      anything {A} act = record { run = λ w k. go (act w) }
        where
          go : (o : Result A × World) → Outcome {A = A} (λ _ w. Unit) (λ _ w. Unit) o
          go (ok a, w) = tt
          go (err e, w) = tt

  module _ (target : String) (r : Release) (raw : Bytes) (w : World)
      (complete : Complete target r raw w) where
    abbrev Good : String → Bytes → Type 0
    Good n b =
        Holds (Staging // n) b w
        × ((contains components n ≡ true → Checked r n b) × (n ≡ "agent-release.json" → b ≡ raw))

    one_file : (n : String) → contains package_files n ≡ true → (b : Bytes) × Good n b
    one_file n i = elim (Bool-cases (contains components n)) [
      | inl program ↦
          let f = complete.0 n program refl in
          (f.0, (f.1.0, (λ _. f.1.1, λ e. absurd (manifest_name_ne n program e))))
      | inr other ↦ elim (string_eq.dec n "agent-release.json") [
        | yes e ↦ (raw, (rw e complete.1, (λ j. cc, λ _. refl)))
        | no ne ↦
            let e : n ≡ "agent-setup.py" = ground arith in
            (complete.2.0, (rw e complete.2.1, (λ j. cc, λ k. absurd (ne k))))
      ]
    ]

    pick : (n : String) (b : Bool) → (b ≡ true → (c : Bytes) × Good n c) → Bytes
    pick n true f = (f refl).0
    pick n false f = []

    pick_lem :
        (n : String) (b : Bool) (f : b ≡ true → (c : Bytes) × Good n c)
        → b ≡ true
        → Good n (pick n b f)
    unfolding pick
    pick_lem n true f i = (f refl).1
    pick_lem n false f i = cc

    staged : String → Bytes
    staged n = pick n (contains package_files n) (one_file n)

    staged-Good : (n : String) → contains package_files n ≡ true → Good n (staged n)
    unfolding staged
    staged-Good n i = pick_lem n (contains package_files n) (one_file n) i

    components-InPackage : (n : String) → contains components n ≡ true → InPackage n
    components-InPackage n i = ground arith

    manifest-InPackage : InPackage "agent-release.json"
    unfolding string_eq
    manifest-InPackage = refl

    pub staged-IsPackage :
        manifest m raw target ≡ ok r
        → (new : String → Bytes) × (Folder Staging new w × IsPackage m target new)
    staged-IsPackage fits = (
      staged,
      (
        λ n i. (staged-Good n i).0,
        record {
          release = r;
          manifest_fits = rw ((staged-Good "agent-release.json" manifest-InPackage).1.1 refl) fits;
          programs_fit = λ n i. (staged-Good n (components-InPackage n i)).1.0 i;
        },
      ),
    )

  -- After staging, the workspace holds a checked package.
  pub stage-Triple :
      (old : String → Bytes) (target : String) (bundle : Option FilePath)
      → Triple
          (Root old)
          (stage m (Work s) target bundle)
          (λ _ w.
            Root old w × ((new : String → Bytes) × (Folder Staging new w × IsPackage m target new)))
          (λ _. Root old)
  stage-Triple old target bundle =
      Triple-weaken (λ w k. (k, tt))
        (λ _ w k. (k.0, staged-IsPackage target k.1.1.0 k.1.0 w k.1.1.1.1 k.1.1.1.0)) (λ _ w k. k)
        (Triple-beside (stage-Root old target bundle) (stage_done target bundle))

-- `stage` leaves the installed package alone, and returns only with a staged package whose manifest
-- is one for the requested version and whose programs are ELF files with the manifest's hashes and
-- within the limit on their size, whether they came from a bundle, the cache or the network.
pub stage_lem :
    (m : Machine) (s : String) (old : String → Bytes) (target : String) (bundle : Option FilePath)
    (w : World)
    → Root old w
    → Outcome
        (λ _ v.
          Root old v
          × ((new : String → Bytes) × (Folder (candidate_of (Work s)) new v
                × IsPackage m target new)))
        (λ _. Root old)
        (stage m (Work s) target bundle w)
stage_lem m s old target bundle w k = (stage-Triple m s old target bundle).run w k

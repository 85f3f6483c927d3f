-- ===== src/Deployment/Safety.antt =====
-- What it takes for the check of a deployment to end with status 0.
use see_size.Base.{
  ◌≤◌, ap, ◌&&◌, Bool-cases, inl, inr, ℕ, ◌==◌, nat_eq, string_eq, list_eq, String, ◌≡◌, refl, true,
  false, if◌then◌else◌, All, arith,
}
use see_size.Fs.{FilePath}
use see_size.Script.{Machine, World}
use see_size.Script.Rules.{
  Triple-weaken, quiet, Outcome, Triple, Triple-bind, Triple-given, Triple-pure, Keeps-raise_if,
}
use see_size.Deployment.Files.{Complete, check_root-Sound}
use see_size.Deployment.Services.{UserReady, ServiceReady, check_user-Sound, services-Sound}
use see_size.Deployment.Blockers.{blockers-add, none_left}
use see_size.Deployment.{
  Mode, install, installed, healthy, Host, Args, add, blockers, services, check_root, valid_root,
  all_checks, check_port, main,
}

module _ (m : Machine) (host : Host) (w : World) where
  abbrev At : World → Type 0
  At v = v ≡ w

  -- A free port for the installation, or a healthy Hub on it.
  unfoldable pub PortReady : Mode → ℕ → Type 0
  PortReady install port = host.port_free port ≡ true
  PortReady installed port = healthy (host.healthz port) ≡ true

  check_port-ready :
      (mode : Mode) (port : ℕ) → blockers (check_port m host mode port) ≡ 0 → PortReady mode port
  unfolding check_port PortReady
  check_port-ready install port z = elim (Bool-cases (host.port_free port)) [
    | inl free ↦ free
    | inr taken ↦ cc (blockers-add "port" "loopback port occupied" false (rw taken at z))
  ]
  check_port-ready installed port z = blockers-add "healthz" _ _ z

  -- What a status of 0 says of the platform, the files, the user, the services, and the port.
  abbrev pub Deployable : Args → Type 0
  Deployable args =
      ((m.system == "Linux" && m.architecture == "x86_64") ≡ true)
      × (valid_root m host w.fs (m.absolute args.root) ≡ true)
      × Complete m host w (m.absolute args.root)
      × UserReady m host w.tick
      × All (λ (s : String). ServiceReady m host w.tick args.mode s) services
      × PortReady args.mode args.port

  all_checks_lem :
      (args : Args)
      → Triple At
          (all_checks m host args)
          (λ cs v. Unit × (blockers cs ≡ 0 → Deployable args))
          (λ _ v. Unit)
  unfolding all_checks
  all_checks_lem args = Triple-bind (root_later (m.absolute args.root)) λ files.
      Triple-given λ good. Triple-bind (check_user-Sound m host w.tick) λ user.
        Triple-given λ ready. Triple-bind (services-Sound m host w.tick args.mode) λ units.
          Triple-given λ served. Triple-pure _ (λ v k. (
            tt,
            λ z.
                let (platform, z1) = none_left (add "platform" _ _) _ z in
                let (f, z2) = none_left files _ z1 in
                let (u, z3) = none_left user _ z2 in
                let (s, port) = none_left units _ z3 in
                (
                  blockers-add _ _ _ platform,
                  (good f).0,
                  (good f).1,
                  ready u,
                  served s,
                  check_port-ready args.mode args.port port,
                ),
          ))
    where
      root_later :
          (root : FilePath)
          → Triple At
              (check_root m host root)
              (λ cs v.
                (w.tick ≤ v.tick)
                × (blockers cs ≡ 0 → (valid_root m host w.fs root ≡ true) × Complete m host w root))
              (λ _ v. Unit)
      root_later root =
          Triple-weaken (λ v k. k)
            (λ _ v k. let same = ap (λ (u : World). u.tick) k.0 in (omega (arith, same), k.1))
            (λ _ v k. k) (check_root-Sound m host w root)

  -- A check that ends with status 0 has found Linux on x86-64; in the files as they were when it
  -- started, a root of its own with no link on the way, which is the user's, closed to others and
  -- writable, with 2 GiB free, programs that are regular executable files for x86-64, credentials
  -- that only their owner can read and that are not empty, and folders that can be written; by what
  -- the commands answered since then, a user that lingers and whose manager runs, and each service
  -- active and enabled, or for an installation not there; and a healthy Hub, or a free port.
  pub main-Deployable :
      (args : Args)
      → Outcome (λ (code, checks) v. code ≡ 0 → Deployable args) (λ _ v. Unit) (main m host args w)
  unfolding main
  main-Deployable args =
      (Triple-bind (quiet (Keeps-raise_if {I = At} _ _)) λ _.
          Triple-bind (all_checks_lem args) λ checks.
            Triple-given λ good. Triple-pure _ (λ v k z. good (ended (blockers checks) z))).run
        w refl
    where
      ended : (n : ℕ) → (if◌then◌else◌ {A = ℕ} (n == 0) 0 1) ≡ 0 → n ≡ 0
      ended n h = ground arith

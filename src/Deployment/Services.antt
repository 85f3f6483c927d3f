-- ===== src/Deployment/Services.antt =====
-- What the answers of the commands say, where the checks of the user and of the services find nothing
-- that blocks.
use text.Mathlib.TextEquality.{eq_iff}
use see_size.Base.{
  ℕ, ◌==◌, nat_eq, string_eq, list_eq, String, ◌≤◌, ◌≡◌, ◌≢◌, refl, ap, subst, ◌∙◌, true, ◌&&◌,
  ◌||◌, Option, none, some, List, [], ◌∷◌, arith, All,
}
use see_size.Fs.{Fs}
use see_size.Script.{
  Machine, World, Exc, value_error, runtime_error, os_error, process_error, crash, system_exit,
  interrupt, Reply, ok,
}
use see_size.Script.Rules.{
  Triple, Triple-bind, Triple-given, Triple-pure, Triple-raise, Triple-catch, lift_lem,
}
use see_size.Setup.Checks.Hub.{strip}
use see_size.Script.Files.{spawn}
use see_size.Deployment.Blockers.{blockers-add, none_left, Sound, gather-Sound}
use see_size.Deployment.{
  Host, Mode, install, installed, add, command, caught, succeeded, check_user, check_installed,
  check_unused, check_service, services, gather,
}

module _ (m : Machine) (start : ℕ) where
  -- From this tick on, the command was asked once, and ended with this status after it printed this
  -- text.
  abbrev pub Says : List String → ℕ → String → Type 0
  Says args code out =
      (i : ℕ) × ((fs : Fs) × ((start ≤ i)
          × ((m.shell i args fs).ending ≡ ok code)
          × (strip (m.shell i args fs).stdout ≡ out)))

  -- What `command` hands out: a status and text of the command, or nothing.
  abbrev Heard : List String → Option ℕ × String → Type 0
  Heard args (none, out) = out ≡ ""
  Heard args (some code, out) = Says args code out

module _ (m : Machine) (host : Host) (start : ℕ) where
  abbrev Later : World → Type 0
  Later v = start ≤ v.tick

  caught_lem :
      (args : List String) (e : Exc)
      → Triple Later (caught m host e) (λ r w. Later w × Heard m start args r) (λ _ w. Unit)
  unfolding caught
  caught_lem args os_error = Triple-pure _ (λ w k. (k, refl))
  caught_lem args process_error = Triple-pure _ (λ w k. (k, refl))
  caught_lem args (value_error s) = Triple-raise _ (λ w k. tt)
  caught_lem args (runtime_error s) = Triple-raise _ (λ w k. tt)
  caught_lem args crash = Triple-raise _ (λ w k. tt)
  caught_lem args (system_exit s) = Triple-raise _ (λ w k. tt)
  caught_lem args interrupt = Triple-raise _ (λ w k. tt)

  command_lem :
      (args : List String)
      → Triple Later (command m host args) (λ r w. Later w × Heard m start args r) (λ _ w. Unit)
  unfolding command spawn
  command_lem args =
      Triple-catch {E = λ _. Later}
        (Triple-bind
          {Q = λ r w. Later w × ((i : ℕ) × ((fs : Fs) × ((start ≤ i) × (m.shell i args fs ≡ r))))}
          (record { run = λ w k. (omega (arith, k), (w.tick, (w.fs, (k, refl)))) })
          λ r. Triple-given λ known. Triple-bind (lift_lem r.ending) λ code. Triple-given λ ended.
            let (i, (fs, (late, same))) = known in
            Triple-pure _ (λ w k. (
              k,
              (
                i,
                (
                  fs,
                  (
                    late,
                    ap (λ (r : Reply). r.ending) same ∙ ended,
                    ap (λ (r : Reply). strip r.stdout) same,
                  ),
                ),
              ),
            )))
        (caught_lem args)

  -- Where the status was 0 and the text this one, the command said so.
  said_well :
      (args : List String) (code : Option ℕ) (out expected : String)
      → Heard m start args (code, out)
      → succeeded m host code && out == expected ≡ true
      → Says m start args 0 expected
  said_well args none out expected h e = cc
  said_well args (some code) out expected h e =
      let zero_status : code ≡ 0 = ground arith in
      let same : out ≡ expected = ground arith in rw (← zero_status) (rw (← same) h)

  some_text : ◌≢◌ {A = String} "not-found" ""
  some_text = ground (arith, eq_iff "not-found" "")

  -- A text that is asked for was printed.
  printed :
      (args : List String) (code : Option ℕ) (out expected : String)
      → Heard m start args (code, out)
      → expected ≢ ""
      → out == expected ≡ true
      → (status : ℕ) × Says m start args status expected
  printed args none out expected h ne e = absurd (ne (ground (arith, h)))
  printed args (some code) out expected h ne e =
      let same : out ≡ expected = ground arith in (code, rw (← same) h)

  abbrev is_active : String → List String
  is_active service = "systemctl" ∷ "--user" ∷ "is-active" ∷ service ∷ []

  abbrev is_enabled : String → List String
  is_enabled service = "systemctl" ∷ "--user" ∷ "is-enabled" ∷ service ∷ []

  abbrev load_state : String → List String
  load_state service =
      "systemctl" ∷ "--user" ∷ "show" ∷ service ∷ "-p" ∷ "LoadState" ∷ "--value" ∷ []

  -- The service runs and starts with the system; or there is none of its name yet.
  unfoldable pub ServiceReady : Mode → String → Type 0
  ServiceReady installed service =
      Says m start (is_active service) 0 "active" × Says m start (is_enabled service) 0 "enabled"
  ServiceReady install service = (status : ℕ) × Says m start (load_state service) status "not-found"

  check_service-Sound :
      (mode : Mode) (service : String)
      → Sound Later (check_service m host mode service) (ServiceReady mode service)
  unfolding check_service check_installed check_unused ServiceReady
  check_service-Sound installed service =
      Triple-bind (command_lem (is_active service)) λ (code, state). Triple-given λ heard.
        Triple-bind (command_lem (is_enabled service)) λ (status, enabled). Triple-given λ known.
          Triple-pure _ (λ v k. (
            k,
            λ z.
                let (a, b) = none_left (add service _ _) _ z in
                (
                  said_well (is_active service) code state "active" heard (blockers-add _ _ _ a),
                  said_well (is_enabled service) status enabled "enabled" known
                      (blockers-add _ _ _ b),
                ),
          ))
  check_service-Sound install service =
      Triple-bind (command_lem (load_state service)) λ (code, loaded). Triple-given λ heard.
        Triple-pure _ (λ v k. (
          k,
          λ z.
              printed (load_state service) code loaded "not-found" heard some_text
                (blockers-add _ _ _ z),
        ))

  pub services-Sound :
      (mode : Mode)
      → Sound Later
          (gather services (check_service m host mode))
          (All (λ (s : String). ServiceReady mode s) services)
  services-Sound mode = gather-Sound (ServiceReady mode) _ (check_service-Sound mode) services

  abbrev who : List String
  who = "id" ∷ "-un" ∷ []

  abbrev lingers : String → List String
  lingers user = "loginctl" ∷ "show-user" ∷ user ∷ "-p" ∷ "Linger" ∷ "--value" ∷ []

  abbrev running : List String
  running = "systemctl" ∷ "--user" ∷ "is-system-running" ∷ []

  -- The services of the user stay without a session, and the user's manager runs.
  pub record UserReady : Type 0 where
    pub user : String
    pub ran : Option ℕ
    pub named : Heard m start who (ran, user)
    pub stays : Says m start (lingers user) 0 "yes"
    pub state : String
    pub status : ℕ
    pub manager : Says m start running status state
    pub runs : (state == "running" || state == "degraded") ≡ true

  manager-Says :
      (asked : Option ℕ) (state : String)
      → Heard m start running (asked, state)
      → (state == "running" || state == "degraded") ≡ true
      → (status : ℕ) × Says m start running status state
  unfolding string_eq
  manager-Says none state h up =
      cc (subst (λ (s : String). (s == "running" || s == "degraded") ≡ true) h up)
  manager-Says (some code) state h up = (code, h)

  pub check_user-Sound : Sound Later (check_user m host) UserReady
  unfolding check_user
  check_user-Sound = Triple-bind (command_lem who) λ (ran, user). Triple-given λ named.
      Triple-bind (command_lem (lingers user)) λ (code, linger). Triple-given λ heard.
        Triple-bind (command_lem running) λ (asked, state). Triple-given λ known.
          Triple-pure _ (λ v k. (
            k,
            λ z.
                let (a, rest) = none_left (add "linger" _ _) _ z in
                let (b, c) = none_left (add "user_systemd" _ _) _ rest in
                let up =
                  blockers-add "user_systemd" _ (state == "running" || state == "degraded") b in
                let spoken = manager-Says asked state known up in
                record {
                  user = user;
                  ran = ran;
                  named = named;
                  stays = said_well (lingers user) code linger "yes" heard (blockers-add _ _ _ a);
                  state = state;
                  status = spoken.0;
                  manager = spoken.1;
                  runs = up;
                },
          ))

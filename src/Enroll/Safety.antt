-- ===== src/Enroll/Safety.antt =====
-- No file that is there is changed, and a saved token is private.
use see_size.Base.{
  ℕ, String, ◌≡◌, refl, ap, ◌∙◌, list_eq, string_eq, some, [], arith, is_some, false,
}
use see_size.Base.Dict.{lookup}
use see_size.Fs.{FilePath, Bytes, Node, put_file}
use see_size.Fs.Laws.{mode-put_file, content-put_file}
use see_size.Json.{Json, null, boolean, number, text, array, object}
use see_size.Script.{Machine, World, Result, ok, err, crash, or_raise}
use see_size.Script.Files.{ticked, write}
use see_size.Script.Rules.{
  Outcome, Outcome-if, Triple, Keeps, Triple-bind, Triple-finally, Triple-weaken, Triple-given,
  Triple-anything, Triple-beside, Keeps-pure, Keeps-or_raise, Triple-pure, Triple-raise, lift_lem,
  lift-Keeps, quiet,
}
use see_size.Script.Frame.{Holds, read-Keeps, write_lem}
use see_size.Script.Frame.Keep.{write-Holds}
use see_size.Setup.Cache.{create}
use see_size.Setup.Cache.Slots.{refuse-Keeps, create-Holds}
use see_size.Rollout.{at_key}
use see_size.Enroll.{Door, target, as_text, post, save, enroll, log_out, main}

module _ (m : Machine) (door : Door) (I : World → Type 0)
    (steady : (w : World) → I w → I (ticked m w w.fs)) where
  post-Keeps : (path : String) (j : Json) → Keeps I (post m door path j)
  unfolding post
  post-Keeps path j = record {
    run = λ w k.
        (lift-Keeps {I = I} (door.answer w.tick path (m.dumps j))).run (ticked m w w.fs)
          (steady w k);
  }

  log_out-Keeps : Keeps I (log_out m door)
  unfolding log_out
  log_out-Keeps = Triple-bind (post-Keeps _ _) λ answer. Keeps-pure tt

module _ (m : Machine) (door : Door) (q : FilePath) {b : Bytes} where
  -- The file that is opened anew is none that is there.
  save-Holds : (token : Json) → Keeps (Holds q b) (save m door token)
  unfolding save
  save-Holds token = Triple-bind (create-Holds m q target [] 0o600) λ _.
      Triple-given
        λ apart. Triple-bind (Keeps-or_raise _ _) λ s. write-Holds m q target _ 0o600 apart

  enroll-Holds : Keeps (Holds q b) (enroll m door)
  unfolding enroll
  enroll-Holds = Triple-bind (post-Keeps m door (Holds q b) (λ w k. k) _ _) λ enrollment.
      Triple-bind (lift-Keeps _) λ code.
        Triple-bind (post-Keeps m door (Holds q b) (λ w k. k) _ _)
          λ registration. Triple-bind (lift-Keeps _) λ token. save-Holds token

  main-Holds : Keeps (Holds q b) (main m door)
  unfolding main
  main-Holds = Triple-bind (refuse-Keeps _ _ _) λ _. Triple-bind (read-Keeps m _) λ raw.
      Triple-bind (Keeps-or_raise _ _) λ credential.
        Triple-bind (post-Keeps m door (Holds q b) (λ w k. k) _ _) λ session.
          Triple-finally enroll-Holds (λ _. log_out-Keeps m door (Holds q b) (λ w k. k))
            (λ _. log_out-Keeps m door (Holds q b) (λ w k. k))

-- Nothing stands where the token goes.
abbrev pub Free : World → Type 0
Free w = is_some (lookup target w.fs) ≡ false

module _ (m : Machine) (door : Door) (w : World) where
  abbrev Same : World → Type 0
  Same v = v.fs ≡ w.fs

  create-Free : Triple Same (create m target [] 0o600) (λ _ v. Unit × Free w) (λ _ v. Unit)
  unfolding create
  create-Free = record {
    run = λ v k.
        Outcome-if _ _ (is_some (lookup target v.fs)) _ _ (λ _. tt)
          (λ free.
            (Triple-weaken {P = λ u. Unit {0}} (λ u h. tt) (λ _ u h. (tt, rw k at free))
                (λ _ u h. h) (Triple-anything (write m target [] 0o600))).run
              v tt);
  }

  enroll-Free : Triple Same (enroll m door) (λ _ v. Unit × Free w) (λ _ v. Unit)
  unfolding enroll save
  enroll-Free = Triple-bind (quiet (post-Keeps m door Same (λ v k. k) _ _)) λ enrollment.
      Triple-bind (quiet (lift-Keeps _)) λ code.
        Triple-bind (quiet (post-Keeps m door Same (λ v k. k) _ _)) λ registration.
          Triple-bind (quiet (lift-Keeps _)) λ token. Triple-bind create-Free λ _.
            Triple-given λ free. Triple-bind (Triple-anything (or_raise (as_text token) crash)) λ s.
              Triple-weaken (λ v k. k) (λ _ v k. (k, free)) (λ _ v k. k)
                (Triple-anything (write m target (door.encode s) 0o600))

-- The token's file, with these bytes and for its owner only.
abbrev pub Private : Bytes → World → Type 0
Private b w = ((n : Node) × ((lookup target w.fs ≡ some n) × (n.mode ≡ 0o600))) × Holds target b w

-- The Hub has answered a registration with this token.
abbrev pub Issued : Door → String → Type 0
Issued door s =
    (i : ℕ) × ((body : Bytes) × ((j : Json) × ((door.answer i "/api/v1/agents/register" body ≡ ok j)
          × (at_key "token" j ≡ ok (text s)))))

module _ (m : Machine) (door : Door) where
  post_known :
      (path : String) (j : Json) {P : World → Type 0}
      → Triple P
          (post m door path j)
          (λ a w. Unit × ((i : ℕ) × (door.answer i path (m.dumps j) ≡ ok a)))
          (λ _ w. Unit)
  unfolding post
  post_known path j = record { run = λ w k. go w (door.answer w.tick path (m.dumps j)) refl }
    where
      go :
          (w : World) (r : Result Json)
          → door.answer w.tick path (m.dumps j) ≡ r
          → Outcome
              (λ a v. Unit × ((i : ℕ) × (door.answer i path (m.dumps j) ≡ ok a)))
              (λ _ v. Unit)
              (r, ticked m w w.fs)
      go w (ok a) e = (tt, (w.tick, e))
      go w (err x) e = tt

  write-Private :
      (body : Bytes) (w : World) (now : ℕ)
      → ((n : Node) → lookup target w.fs ≡ some n → n.mode ≡ 0o600)
      → Private body (ticked m w (put_file target body m.euid 0o600 now w.fs))
  write-Private body w now h = (
    mode-put_file target body m.euid 0o600 now w.fs h,
    content-put_file target body m.euid 0o600 now w.fs,
  )

  create-Private :
      {P : World → Type 0} → Triple P (create m target [] 0o600) (λ _. Private []) (λ _ w. Unit)
  unfolding create
  create-Private = record {
    run = λ w k.
        Outcome-if _ _ (is_some (lookup target w.fs)) _ _ (λ _. tt)
          (λ free.
            (write_lem m target [] 0o600 {P = λ v. is_some (lookup target v.fs) ≡ false}
                {E = λ _. Unit}
                (λ v now h. write-Private [] v now (λ n e. absurd (ground (arith, h, e))))
                (λ v h. tt) (λ v part now h. tt)).run
              w free);
  }

  same_mode :
      {b : Bytes} (w : World)
      → Private b w
      → (n : Node) → lookup target w.fs ≡ some n
      → n.mode ≡ 0o600
  same_mode w k n e = ground (arith, k.0.1.0, k.0.1.1, e)

  text_known :
      (j : Json) {P : World → Type 0}
      → Triple P (or_raise (as_text j) crash) (λ s w. P w × (j ≡ text s)) (λ _ w. Unit)
  unfolding as_text
  text_known (text s) = Triple-pure s (λ w k. (k, refl))
  text_known null = Triple-raise crash (λ w k. tt)
  text_known (boolean b) = Triple-raise crash (λ w k. tt)
  text_known (number n) = Triple-raise crash (λ w k. tt)
  text_known (array xs) = Triple-raise crash (λ w k. tt)
  text_known (object fs) = Triple-raise crash (λ w k. tt)

  save-Private :
      (token : Json) {P : World → Type 0}
      → Triple P
          (save m door token)
          (λ _ w. (s : String) × (Private (door.encode s) w × (token ≡ text s)))
          (λ _ w. Unit)
  unfolding save
  save-Private token = Triple-bind create-Private λ _. Triple-bind (text_known token) λ s.
      Triple-given λ is.
        write_lem m target (door.encode s) 0o600
          (λ w now k. (s, (write-Private (door.encode s) w now (same_mode w k), is))) (λ w k. tt)
          (λ w part now k. tt)

  enroll-Private :
      Triple
        (λ w. Unit)
        (main m door)
        (λ _ w. (s : String) × (Private (door.encode s) w × Issued door s))
        (λ _ w. Unit)
  unfolding main enroll
  enroll-Private = Triple-bind (Triple-anything _) λ _. Triple-bind (Triple-anything _) λ raw.
      Triple-bind (Triple-anything _) λ credential. Triple-bind (Triple-anything _) λ session.
        Triple-finally
          (Triple-bind (Triple-anything _) λ enrollment. Triple-bind (Triple-anything _) λ code.
            Triple-bind (post_known _ _) λ registration. Triple-given λ known.
              Triple-bind (quiet (lift_lem _)) λ token. Triple-given λ is.
                Triple-weaken (λ w k. k)
                  (λ _ w k. (
                    k.0,
                    (
                      k.1.0,
                      (known.0, (_, (registration, (known.1, is ∙ ap (λ (t : Json). ok t) k.1.1)))),
                    ),
                  ))
                  (λ _ w k. k) (save-Private token))
          (λ _. quiet (log_out-Keeps m door _ (λ w k. k))) (λ _. Triple-anything _)

-- From whatever files its last part begins with, which follows the login and so the look at the
-- token's path, every regular file that is there has its bytes after it, also a token that is there by
-- then; and it returns only where no token is there. The whole enrollment leaves every regular file
-- its bytes too.
pub enroll_replaces_nothing :
    (m : Machine) (door : Door) (q : FilePath) (b : Bytes) (w : World)
    → Holds q b w
    → Outcome (λ _ v. Holds q b v × Free w) (λ _. Holds q b) (enroll m door w)
      × Outcome (λ _. Holds q b) (λ _. Holds q b) (main m door w)
enroll_replaces_nothing m door q b w k = (
  (Triple-weaken (λ v h. h) (λ _ v h. (h.0, h.1.1)) (λ _ v h. h)
        (Triple-beside (enroll-Holds m door q) (enroll-Free m door w))).run
      w (k, refl),
  (main-Holds m door q).run w k,
)

-- An enrollment that returns has saved the token that the Hub has answered its registration with, in
-- a regular file that only its owner may read or write.
pub enroll_saves :
    (m : Machine) (door : Door) (w : World)
    → Outcome
        (λ _ v. (s : String) × (Private (door.encode s) v × Issued door s))
        (λ _ v. Unit)
        (main m door w)
enroll_saves m door w = (enroll-Private m door).run w tt

-- ===== src/Setup/Fetch/Retry.antt =====
-- The retries of a download, and that it touches no file.
use see_size.Base.{
  ℕ, zero, suc, ◌+◌, ◌≤◌, ◌<◌, ◌≡◌, refl, inl, inr, String, true, arith, Bool-cases, string_eq, ap,
  ◌∙◌, subst, sym,
}
use see_size.Fs.{Bytes, Fs}
use see_size.Script.{Machine, World, Result, ok, err, ◌>>=◌}
use see_size.Script.Rules.{Outcome, Keeps}
use see_size.Setup.{download_attempts}
use see_size.Setup.Fetch.{
  Tried, got, failed, again, try_once, attempt, settle, fetch_loop, fetch, is_https,
}
use see_size.Setup.Fetch.Bounds.{Delivered, try_once-Delivered}

module _ (m : Machine) (url : String) (limit : ℕ) where
  -- The bytes are those of one attempt, after attempts that each asked for a retry.
  pub record Fetched (attempts : ℕ) (w : World) (body : Bytes) (w' : World) : Type 0 where
    pub retries : ℕ
    pub few : retries < attempts
    pub retried : (j : ℕ) → j < retries → try_once limit (m.download (w.tick + j) url) ≡ again
    pub delivered : Delivered limit (m.download (w.tick + retries) url) body
    pub after : w' ≡ record w { tick = w.tick + retries + 1 }

  abbrev pub FailedCleanly : ℕ → World → World → Type 0
  FailedCleanly attempts w w' =
      (w'.fs ≡ w.fs) × (w'.commands ≡ w.commands) × (w'.tick ≤ w.tick + attempts)

  Fetched-suc :
      (n : ℕ) (w : World) (body : Bytes) (w' : World)
      → try_once limit (m.download w.tick url) ≡ again
      → Fetched n (record w { tick = suc w.tick }) body w'
      → Fetched (suc n) w body w'
  Fetched-suc n w body w' e f = record {
    retries = suc f.retries;
    few = omega (arith, f.few);
    retried = go;
    delivered =
        let s : suc w.tick + f.retries ≡ w.tick + suc f.retries = omega arith in
        rw (← s) f.delivered;
    after = f.after ∙ ap (λ (t : ℕ). record w { tick = t }) (omega arith);
  }
    where
      go : (j : ℕ) → j < suc f.retries → try_once limit (m.download (w.tick + j) url) ≡ again
      go zero h = let s : w.tick + 0 ≡ w.tick = omega arith in rw s e
      go (suc j) h =
          let s : w.tick + suc j ≡ suc w.tick + j = omega arith in rw s (f.retried j (omega arith))

  fetch_loop-Fetched :
      (n : ℕ) (w : World)
      → Outcome (Fetched n w) (λ _. FailedCleanly n w) (fetch_loop m n url limit w)
  unfolding fetch_loop settle attempt ◌>>=◌
  fetch_loop-Fetched zero w = (refl, refl, omega arith)
  fetch_loop-Fetched (suc n) w =
      go (fetch_loop-Fetched n (record w { tick = suc w.tick }))
        (try_once limit (m.download w.tick url)) refl
    where
      w1 : World
      w1 = record w { tick = suc w.tick }

      rest :
          (o : Result Bytes × World)
          → Outcome (Fetched n w1) (λ _. FailedCleanly n w1) o
          → try_once limit (m.download w.tick url) ≡ again
          → Outcome (Fetched (suc n) w) (λ _. FailedCleanly (suc n) w) o
      rest (ok body, w') f e = Fetched-suc n w body w' e f
      rest (err x, w') (p, q, r) e = (p, q, omega arith)

      go :
          Outcome (Fetched n w1) (λ _. FailedCleanly n w1) (fetch_loop m n url limit w1)
          → (t : Tried) → try_once limit (m.download w.tick url) ≡ t
          → Outcome
              (Fetched (suc n) w)
              (λ _. FailedCleanly (suc n) w)
              (settle (fetch_loop m n url limit) t w1)
      go ih (got body) e = record {
        retries = 0;
        few = omega arith;
        retried = λ j h. absurd (omega arith);
        delivered =
            let s : w.tick + 0 ≡ w.tick = omega arith in
            rw s (try_once-Delivered limit (m.download w.tick url) body e);
        after = ap (λ (t : ℕ). record w { tick = t }) (omega arith);
      }
      go ih (failed x) e = (refl, refl, omega arith)
      go ih again e = rest (fetch_loop m n url limit w1) ih e

  -- A download that returns gives the bytes of a single attempt over HTTPS, the first that did not
  -- ask for a retry, after at most three attempts: all bytes of its stream up to the end of the body,
  -- which no trouble cut off, as many as announced, and within the limit. One that fails made at most
  -- three attempts. Neither changes a file nor runs a command.
  pub fetch_lem :
      (w : World)
      → Outcome
          (λ body w'. Fetched download_attempts w body w' × (is_https (m.urlsplit url) ≡ true))
          (λ _. FailedCleanly download_attempts w)
          (fetch m url limit w)
  unfolding fetch ◌>>=◌
  fetch_lem w = elim (Bool-cases (is_https (m.urlsplit url))) [
    | inl s ↦
        rw s (
          go s (fetch_loop m download_attempts url limit w)
            (fetch_loop-Fetched download_attempts w))
    | inr n ↦ rw n (refl, refl, omega arith)
  ]
    where
      go :
          is_https (m.urlsplit url) ≡ true
          → (o : Result Bytes × World)
          → Outcome (Fetched download_attempts w) (λ _. FailedCleanly download_attempts w) o
          → Outcome
              (λ body w'. Fetched download_attempts w body w' × (true ≡ true))
              (λ _. FailedCleanly download_attempts w)
              o
      go s (ok body, w') f = (f, refl)
      go s (err e, w') f = f

  -- What depends on the files alone is kept.
  pub fetch-Keeps : (I : Fs → Type 0) → Keeps (λ w. I w.fs) (fetch m url limit)
  fetch-Keeps I = record { run = λ w k. go w k (fetch m url limit w) (fetch_lem w) }
    where
      go :
          (w : World)
          → I w.fs
          → (o : Result Bytes × World)
          → Outcome
              (λ body w'. Fetched download_attempts w body w' × (is_https (m.urlsplit url) ≡ true))
              (λ _. FailedCleanly download_attempts w)
              o
          → Outcome {A = Bytes} (λ _ w. I w.fs) (λ _ w. I w.fs) o
      go w k (ok body, w') f = subst (λ (v : World). I v.fs) (sym f.0.after) k
      go w k (err e, w') f = subst I (sym f.0) k

-- ===== src/Setup/Cache/Slots.antt =====
-- The cache hands out verified programs only, and touches nothing outside its folder.
use see_size.Base.{
  ℕ, String, ◌≡◌, refl, ◌≢◌, Bool, true, false, some, [], ◌∷◌, arith, list_eq, string_eq, is_some,
}
use see_size.Base.Dict.{lookup}
use see_size.Fs.{FilePath, ◌//◌, Bytes, Fs, content, content_at, exists, is_dir, under, parent}
use see_size.Fs.Laws.{under_self}
use see_size.Script.{Machine, World, Exc, Action, Result, ok, err, pure, ◌>>◌, raise_if}
use see_size.Script.Rules.{
  Outcome, Triple, Keeps, Triple-bind, Triple-weaken, Triple-each, Triple-raise_if, Triple-finally,
  Outcome-if, Triple-pure, Triple-given,
}
use see_size.Script.Checked.{lift}
use see_size.Script.Frame.{Holds, change_lem, read_lem}
use see_size.Script.Frame.Keep.{
  ne_of_free, write-Holds, unlink-Holds, unlink_if_there-Holds, mkdir-Holds, rename-Holds,
}
use see_size.Script.Files.{unlink}
use see_size.Setup.{cache, max_binary}
use see_size.Setup.Fetch.Retry.{fetch-Keeps}
use see_size.Setup.Checks.Binary.{validate_binary}
use see_size.Setup.Cache.{
  prepare_cache, refuse, drop_stale, mkdir_if_missing, stale, partial, create, cached, store,
  download, release_binary,
}

-- A path outside a folder is none of the folder's entries.
pub ne_of_outside : (d q : FilePath) (n : String) → under d q ≡ false → q ≢ d // n
unfolding under
ne_of_outside d q n h e = ground (arith, under_self d)

pub refuse-Keeps : (I : World → Type 0) (test : Fs → Bool) (e : Exc) → Keeps I (refuse test e)
refuse-Keeps I test e = record { run = λ w k. go w k (test w.fs) }
  where
    go : (w : World) → I w → (b : Bool) → Outcome {A = Unit} (λ _. I) (λ _. I) (raise_if b e w)
    go w k true = k
    go w k false = k

-- A file is as it was, and the bytes have passed the check.
abbrev pub Verified : Machine → FilePath → Bytes → String → Bytes → World → Type 0
Verified m q b expected body w = Holds q b w × (validate_binary m body expected ≡ ok tt)

module _ (m : Machine) (q : FilePath) (outside : under cache q ≡ false) {b : Bytes} where
  mkdir_if_missing-Holds : (mode : ℕ) → Keeps (Holds q b) (mkdir_if_missing m cache mode)
  unfolding mkdir_if_missing
  mkdir_if_missing-Holds mode = record {
    run = λ w k.
        Outcome-if _ _ (is_dir w.fs cache) _ _ (λ _. k) (λ _. (mkdir-Holds m q cache mode).run w k);
  }

  drop_stale-Holds : (n : String) → Keeps (Holds q b) (drop_stale m n)
  unfolding drop_stale
  drop_stale-Holds n = record {
    run = λ w k.
        Outcome-if _ _ (stale (m.clock w.tick) w.fs n) _ _
          (λ _. (unlink-Holds m q (cache // n) (ne_of_outside cache q n outside)).run w k) (λ _. k);
  }

  pub prepare_cache-Holds : Keeps (Holds q b) (prepare_cache m)
  unfolding prepare_cache
  prepare_cache-Holds =
      Triple-bind
        (Triple-each (λ _. Holds q b) (λ p _. refuse-Keeps _ _ _)
          (parent (parent cache) ∷ parent cache ∷ []))
        λ _. Triple-bind (mkdir_if_missing-Holds 0o700) λ _. Triple-bind (refuse-Keeps _ _ _) λ _.
          Triple-bind (record { run = λ w k. k })
            λ entries.
              Triple-bind (Triple-each (λ _. Holds q b) (λ n _. refuse-Keeps _ _ _) entries)
                λ _. Triple-each (λ _. Holds q b) (λ n _. drop_stale-Holds n) entries

  store-Holds : (n : String) (body : Bytes) → Keeps (Holds q b) (store m (cache // n) body)
  unfolding store create
  store-Holds n body =
      let apart = ne_of_outside cache q ".partial" outside in
      Triple-finally
        (Triple-bind
          (record {
            run = λ w k.
                Outcome-if _ _ (is_some (lookup partial w.fs)) _ _ (λ _. k)
                  (λ _. (write-Holds m q partial body 0o600 apart).run w k);
          })
          λ _.
            Triple-bind (change_lem m _ (λ w k. k) (λ w k. k))
              λ _. rename-Holds m q partial (cache // n) apart (ne_of_outside cache q n outside))
        (λ _. unlink_if_there-Holds m q partial apart)
        (λ _. unlink_if_there-Holds m q partial apart)

  -- A check that has passed is known.
  lift-checked :
      (body : Bytes) (expected : String)
      → Triple
          (Holds q b)
          (lift (validate_binary m body expected))
          (λ _. Verified m q b expected body)
          (λ _. Holds q b)
  lift-checked body expected = record { run = λ w k. go w k (validate_binary m body expected) refl }
    where
      go :
          (w : World)
          → Holds q b w
          → (r : Result (Unit {0})) → validate_binary m body expected ≡ r
          → Outcome {A = Unit} (λ _. Verified m q b expected body) (λ _. Holds q b) (r, w)
      go w k (ok u) e = (k, e)
      go w k (err x) e = k

  download_lem :
      (release n expected : String)
      → Triple
          (Holds q b)
          (download m release n (cache // n) expected)
          (Verified m q b expected)
          (λ _. Holds q b)
  unfolding download
  download_lem release n expected =
      Triple-bind (fetch-Keeps m _ max_binary (λ fs. content fs q ≡ some b)) λ body.
        Triple-bind (lift-checked body expected) λ _.
          Triple-given
            λ valid. Triple-bind (store-Holds n body) λ _. Triple-pure body (λ w k. (k, valid))

  cached_lem :
      (n expected : String) (miss : Action Bytes)
      → Triple (Holds q b) miss (Verified m q b expected) (λ _. Holds q b)
      → Triple
          (Holds q b)
          (cached m (cache // n) expected pure miss)
          (Verified m q b expected)
          (λ _. Holds q b)
  unfolding cached
  cached_lem n expected miss t = record {
    run = λ w k.
        Outcome-if _ _ (exists w.fs (cache // n)) _ _
          (λ _.
            (Triple-bind (read_lem m (cache // n))
                (λ body. go body (validate_binary m body expected) refl)).run
              w k)
          (λ _. t.run w k);
  }
    where
      go :
          (body : Bytes) (r : Result (Unit {0}))
          → validate_binary m body expected ≡ r
          → Triple
              (λ w. Holds q b w × (content_at w.fs (cache // n) ≡ some body))
              (elim r [ ok u ↦ pure body | err e ↦ unlink m (cache // n) >> miss ])
              (Verified m q b expected)
              (λ _. Holds q b)
      go body (ok u) e = Triple-pure body (λ w k. (k.0, e))
      go body (err x) e =
          Triple-bind
            (Triple-weaken (λ w k. k.0) (λ _ w k. k) (λ _ w k. k)
              (unlink-Holds m q (cache // n) (ne_of_outside cache q n outside)))
            (λ _. t)

  -- A program that is handed out has passed the check against the expected hash, whether it came
  -- from the cache or from the network; files outside the cache are left alone.
  pub release_binary-Triple :
      (release n expected : String)
      → Triple
          (Holds q b)
          (release_binary m release n expected)
          (Verified m q b expected)
          (λ _. Holds q b)
  unfolding release_binary
  release_binary-Triple release n expected =
      Triple-bind (Triple-raise_if _ _ {Q = λ _. Holds q b} (λ w k e. k) (λ w k e. k)) λ _.
        Triple-bind prepare_cache-Holds
          λ _. cached_lem n expected _ (download_lem release n expected)

-- A program that `release_binary` hands out is an ELF file with the expected hash, whether it came
-- from the cache or from the network. A regular file outside the cache keeps its bytes, whether
-- the call returns or raises.
pub release_binary_lem :
    (m : Machine) (q : FilePath) (b : Bytes) (release n expected : String) (w : World)
    → under cache q ≡ false
    → Holds q b w
    → Outcome
        (λ body v. Holds q b v × (validate_binary m body expected ≡ ok tt))
        (λ _. Holds q b)
        (release_binary m release n expected w)
release_binary_lem m q b release n expected w out k =
    (release_binary-Triple m q out release n expected).run w k

-- A file that is made anew is none that is there.
pub create-Holds :
    (m : Machine) (q p : FilePath) (body : Bytes) (mode : ℕ) {b : Bytes}
    → Triple (Holds q b) (create m p body mode) (λ _ w. Holds q b w × (q ≢ p)) (λ _. Holds q b)
unfolding create
create-Holds m q p body mode = record {
  run = λ w k.
      Outcome-if _ _ (is_some (lookup p w.fs)) _ _ (λ _. k)
        (λ free.
          let apart = ne_of_free m q p w k free in
          (Triple-weaken (λ v h. h) (λ _ v h. (h, apart)) (λ _ v h. h)
              (write-Holds m q p body mode apart)).run
            w k);
}

-- ===== src/Storage/Safety.antt =====
-- What `plan` may name: registered artifacts of the allowed kinds and names.
use text.Mathlib.TextEquality.{eq_iff}
use see_size.Base.{
  ◌≢◌, ℕ, ◌==◌, string_eq, list_eq, String, ◌≡◌, refl, ◌⊎◌, inl, inr, Bool, true, false, not, ◌&&◌,
  ◌||◌, some, List, [], ◌∷◌, ◌++◌, contains, drop, All, arith, zero, suc, Bool-cases, subst,
}
use see_size.Base.Dict.{lookup}
use see_size.Fs.{FilePath, ◌//◌, Fs, Node, is_symlink, is_dir, exists, under, kind_is_link}
use see_size.Script.{Result, ok, crash}
use see_size.Script.Success.{bind-ok, then-ok, refuse_if-ok, or_refuse-ok, ok-injective}
use see_size.Script.Checked.{refuse_if, or_refuse}
use see_size.Storage.{
  Entry, Scan, protected, le, newer, insert_sorted, sort, names_of, is_plain, is_rollback_name,
  is_temporary_name, allowed, any_foreign, classify, examine, step, scan, chosen, plan,
}

module _ {A : Type 0} (P : A → Type 0) where
  All-insert_sorted :
      (before : A → A → Bool) (x : A) (xs : List A)
      → P x
      → All P xs
      → All P (insert_sorted before x xs)
  unfolding insert_sorted
  All-insert_sorted before x [] p ps = (p, tt)
  All-insert_sorted before x (y ∷ ys) p (q, qs) = elim (Bool-cases (before x y)) [
    | inl e ↦ rw e (p, (q, qs))
    | inr e ↦ rw e (q, All-insert_sorted before x ys p qs)
  ]

  All-sort : (before : A → A → Bool) (xs : List A) → All P xs → All P (sort before xs)
  unfolding sort
  All-sort before [] ps = tt
  All-sort before (x ∷ xs) (p, ps) =
      All-insert_sorted before x (sort before xs) p (All-sort before xs ps)

  All-drop : (n : ℕ) (xs : List A) → All P xs → All P (drop n xs)
  All-drop zero xs ps = ps
  All-drop (suc n) [] ps = tt
  All-drop (suc n) (x ∷ xs) (p, ps) = All-drop n xs ps

  All-append : (xs ys : List A) → All P xs → All P ys → All P (xs ++ ys)
  All-append [] ys ps qs = qs
  All-append (x ∷ xs) ys (p, ps) qs = (p, All-append xs ys ps qs)

kinds_differ : ◌≢◌ {A = String} "rollback" "temporary"
kinds_differ = ground (arith, eq_iff "rollback" "temporary")

-- One of the entries.
abbrev pub Registered : List Entry → Entry → Type 0
Registered [] e = ⊥
Registered (x ∷ xs) e = (e ≡ x) ⊎ Registered xs e

module _ (is_mount : FilePath → Bool) (due : String → ℕ → Result Bool) (root : FilePath) (now : ℕ)
    (fs : Fs) (entries : List Entry) where
  any_foreign-none :
      (xs : Fs) (d p : FilePath) (x : Node)
      → any_foreign is_mount due root now fs xs d ≡ false
      → under d p ≡ true
      → lookup p xs ≡ some x
      → (kind_is_link x.kind ≡ false) × (is_mount p ≡ false)
  unfolding any_foreign lookup
  any_foreign-none [] d p x h inside found = cc
  any_foreign-none ((q, y) ∷ xs) d p x h inside found = elim (list_eq.dec p q) [
    | yes e ↦
        let same : y ≡ x = ground arith in
        let below : under d q ≡ true = rw e at inside in
        let free : (kind_is_link y.kind || is_mount q) ≡ false = ground arith in
        rw (← same) (rw e (ground arith, ground arith))
    | no ne ↦ any_foreign-none xs d p x (ground arith) inside (ground arith)
  ]

  -- The name is that of a registered artifact which may be removed: it is there, it is no link, and a
  -- folder with neither a link nor a mount point at or below it, or no folder; and it is a rollback
  -- point or a temporary artifact that is due.
  pub record Removable (n : String) : Type 0 where
    pub entry : Entry
    pub registered : Registered entries entry
    pub named : entry.name ≡ some n
    pub unprotected : contains protected n ≡ false
    pub plain : is_plain n ≡ true
    pub there : exists fs (root // n) ≡ true
    pub no_link : is_symlink fs (root // n) ≡ false
    pub own :
        is_dir fs (root // n) ≡ true
        → (p : FilePath) (x : Node) → under (root // n) p ≡ true
        → lookup p fs ≡ some x
        → (kind_is_link x.kind ≡ false) × (is_mount p ≡ false)
    pub reason :
        ((entry.kind ≡ some "rollback") × (is_rollback_name n ≡ true))
        ⊎ ((entry.kind ≡ some "temporary")
            × (is_temporary_name n ≡ true)
            × ((t : String) × (entry.expires_at ≡ some t) × (due t now ≡ ok true)))

  record Sound (s : Scan) : Type 0 where
    targets_fit : All Removable s.targets
    rollback_fit : All (λ (p : String × String). Removable p.1) s.rollback

  abbrev Reason : Entry → String → String → Type 0
  Reason e kind n =
      ((kind ≡ "rollback") × (is_rollback_name n ≡ true))
      ⊎ ((kind ≡ "temporary") × (is_temporary_name n ≡ true))

  allowed-ok : (e : Entry) (kind n : String) → allowed kind n ≡ ok tt → Reason e kind n
  unfolding allowed
  allowed-ok e kind n h = elim (Bool-cases (kind == "rollback")) [
    | inl r ↦ inl (ground arith, ground arith)
    | inr r ↦ elim (Bool-cases (kind == "temporary")) [
      | inl t ↦ inr (ground arith, ground arith)
      | inr t ↦ absurd (ground arith)
    ]
  ]

  module _ (e : Entry) (kind n : String) (r : Registered entries e) (named : e.name ≡ some n)
      (sort_of : e.kind ≡ some kind) (free : contains protected n ≡ false)
      (plain : is_plain n ≡ true) (may : Reason e kind n) where
    -- The name can be removed once its path has been looked at.
    Here : Type 0
    Here =
        (exists fs (root // n) ≡ true)
        × (is_symlink fs (root // n) ≡ false)
        × ((is_dir fs (root // n) && any_foreign is_mount due root now fs fs (root // n)) ≡ false)

    removable :
        Here
        → ((e.kind ≡ some "rollback") × (is_rollback_name n ≡ true))
          ⊎ ((e.kind ≡ some "temporary")
              × (is_temporary_name n ≡ true)
              × ((t : String) × (e.expires_at ≡ some t) × (due t now ≡ ok true)))
        → Removable n
    unfolding Here
    removable here why = record {
      entry = e;
      registered = r;
      named = named;
      unprotected = free;
      plain = plain;
      there = here.0;
      no_link = here.1;
      own = λ folder p x inside found.
          any_foreign-none fs (root // n) p x (ground (arith, here.2, folder)) inside found;
      reason = why;
    }

    as_rollback :
        kind == "rollback" ≡ true → (e.kind ≡ some "rollback") × (is_rollback_name n ≡ true)
    as_rollback b = elim may [
      | inl m ↦ (ground arith, m.1)
      | inr m ↦ absurd (kinds_differ (ground arith))
    ]

    as_temporary :
        kind == "rollback" ≡ false → (e.kind ≡ some "temporary") × (is_temporary_name n ≡ true)
    as_temporary b = elim may [ inl m ↦ absurd (ground arith) | inr m ↦ (ground arith, m.1) ]

    classify-Sound :
        (s s' : Scan)
        → Here
        → Sound s
        → classify is_mount due root now fs e kind n s ≡ ok s'
        → Sound s'
    unfolding classify
    classify-Sound s s' here k h = elim (Bool-cases (kind == "rollback")) [
      | inl b ↦
          let (created, at, done) = bind-ok (or_refuse e.created_at crash) _ (rw b at h) in
          subst Sound (ok-injective done) (record {
            targets_fit = k.targets_fit;
            rollback_fit =
                All-append (λ (p : String × String). Removable p.1) s.rollback _ k.rollback_fit
                  (removable here (inl (as_rollback b)), tt);
          })
      | inr b ↦
          let (expires, at, h1) = bind-ok (or_refuse e.expires_at crash) _ (rw b at h) in
          let (is_due, then_due, done) = bind-ok (due expires now) _ h1 in
          elim (Bool-cases is_due) [
            | inl d ↦ subst Sound (ok-injective (rw d at done)) (record {
              targets_fit = All-append Removable s.targets _ k.targets_fit (
                removable here (
                    inr (
                      (as_temporary b).0,
                      (as_temporary b).1,
                      (expires, or_refuse-ok _ _ at, ground arith),
                    )),
                tt,
              );
              rollback_fit = k.rollback_fit;
            })
            | inr d ↦ subst Sound (ok-injective (rw d at done)) k
          ]
    ]

    examine-Sound :
        (s s' : Scan) → Sound s → examine is_mount due root now fs e kind n s ≡ ok s' → Sound s'
    unfolding examine Here
    examine-Sound s s' k h =
        elim (Bool-cases (not (exists fs (root // n)) && not (is_symlink fs (root // n)))) [
          | inl gone ↦ subst Sound (ok-injective (rw gone at h)) k
          | inr there ↦
              let (no_link, h1) =
                then-ok (refuse_if (is_symlink fs (root // n) || not (root == root)) _) _
                  (rw there at h) in
              let (own, h2) =
                then-ok
                  (refuse_if
                    (is_dir fs (root // n) && any_foreign is_mount due root now fs fs (root // n))
                    _)
                  _ h1 in
              let a = refuse_if-ok _ _ no_link in
              let b = refuse_if-ok _ _ own in
              classify-Sound s s' (ground arith, ground arith, b) k h2
        ]

  step-Sound :
      (e : Entry) (s s' : Scan)
      → Registered entries e
      → Sound s
      → step is_mount due root now fs e s ≡ ok s'
      → Sound s'
  unfolding step
  step-Sound e s s' r k h =
      let (n, found, h1) = bind-ok (or_refuse e.name crash) _ h in
      let (fit, h2) =
        then-ok (refuse_if (contains s.seen n || contains protected n || not (is_plain n)) _) _
          h1 in
      let free =
        refuse_if-ok (contains s.seen n || contains protected n || not (is_plain n)) _ fit in
      let (kind, sort_of, h3) = bind-ok (or_refuse e.kind crash) _ h2 in
      let (may, h4) = then-ok (allowed kind n) _ h3 in
      examine-Sound e kind n r (or_refuse-ok _ _ found) (or_refuse-ok _ _ sort_of) (ground arith)
        (ground arith) (allowed-ok e kind n may) _ s'
        (record { targets_fit = k.targets_fit; rollback_fit = k.rollback_fit }) h4

  scan-Sound :
      (es : List Entry) (s s' : Scan)
      → ((e : Entry) → Registered es e → Registered entries e)
      → Sound s
      → scan is_mount due root now fs es s ≡ ok s'
      → Sound s'
  unfolding scan
  scan-Sound [] s s' sub k h = subst Sound (ok-injective h) k
  scan-Sound (e ∷ es) s s' sub k h =
      let (s1, first, rest) = bind-ok (step is_mount due root now fs e s) _ h in
      scan-Sound es s1 s' (λ x i. sub x (inr i)) (step-Sound e s s1 (sub e (inl refl)) k first) rest

  All-names_of :
      (ps : List (String × String))
      → All (λ (p : String × String). Removable p.1) ps
      → All Removable (names_of ps)
  unfolding names_of
  All-names_of [] ks = tt
  All-names_of ((t, n) ∷ ps) (k, ks) = (k, All-names_of ps ks)

  -- Every name that `plan` returns is that of a registered entry whose artifact may be removed: not
  -- protected, a plain name, there, no link, where it is a folder with neither a link nor a mount point
  -- at or below it, and either a rollback point with an allowed name or a temporary artifact with an
  -- allowed name that is due. A regular file may be a mount point itself.
  pub plan-Removable :
      (names : List String) → plan is_mount due root now fs entries ≡ ok names → All Removable names
  unfolding plan chosen
  plan-Removable names h =
      let (s, scanned, done) =
        bind-ok
          (scan is_mount due root now fs entries
            (record { targets = []; rollback = []; seen = [] }))
          _ h in
      let k =
        scan-Sound entries _ s (λ e i. i) (record { targets_fit = tt; rollback_fit = tt })
          scanned in
      subst (All Removable) (ok-injective done) (
        All-sort Removable le _ (
          All-append Removable s.targets _ k.targets_fit (
            All-names_of _ (
              All-drop (λ (p : String × String). Removable p.1) 3 _
                (All-sort (λ (p : String × String). Removable p.1) newer s.rollback
                  k.rollback_fit)))))

-- ===== src/Storage/Retention.antt =====
-- Which artifacts `plan` picks: those that are due, and all rollback points but the three newest.
use package.text.Mathlib.TextEquality.{eq_iff}
use mathlib.Core.List.{Perm, append-nil, append_assoc}
use see_size.Base.{
  ℕ, ◌≤◌, ◌==◌, string_eq, list_eq, String, ◌≡◌, ◌≢◌, refl, sym, ap, ◌∙◌, subst, inl, inr, Bool,
  true, false, not, ◌&&◌, ◌||◌, Option, none, some, List, [], ◌∷◌, ◌++◌, All, contains, take, drop,
  length, Bool-cases, arith, if◌then◌else◌,
}
use see_size.Fs.{FilePath, ◌//◌, Fs, exists, is_symlink, is_dir}
use see_size.Script.{Result, ok, err, crash}
use see_size.Script.Checked.{refuse_if, or_refuse}
use see_size.Script.Success.{bind-ok, then-ok, refuse_if-ok, or_refuse-ok, ok-injective}
use see_size.Storage.{
  Entry, Scan, le, newer, sort, names_of, is_plain, allowed, any_foreign, classify, examine, step,
  scan, chosen, plan, protected,
}
use see_size.Storage.Order.{newer-total, newer_trans}
use see_size.Storage.Sorted.{
  sort-Perm, sort-Ascending, take-drop-Ascending, append-take-drop, length-take_le, length-take_eq,
}

module _ (due : String → ℕ → Result Bool) (root : FilePath) (now : ℕ) (fs : Fs) where
  is_due : Result Bool → Bool
  is_due (ok b) = b
  is_due (err e) = false

  point : Option String → Option String → Option String → List (String × String)
  point (some n) (some k) (some c) =
      if k == "rollback" && exists fs (root // n) then (c, n) ∷ [] else []
  point _ _ _ = []

  -- The registered rollback points that are there, with their times.
  pub points : List Entry → List (String × String)
  points [] = []
  points (e ∷ es) = point e.name e.kind e.created_at ++ points es

  due_name : Option String → Option String → Option String → List String
  due_name (some n) (some k) (some t) =
      if k == "temporary" && exists fs (root // n) && is_due (due t now) then n ∷ [] else []
  due_name _ _ _ = []

  -- The registered temporary artifacts that are there and due.
  pub dues : List Entry → List String
  dues [] = []
  dues (e ∷ es) = due_name e.name e.kind e.expires_at ++ dues es

  point_here :
      (n k c : String)
      → k == "rollback" ≡ true
      → exists fs (root // n) ≡ true
      → point (some n) (some k) (some c) ≡ (c, n) ∷ []
  unfolding point
  point_here n k c h there = ground arith

  no_point :
      (n k : String) (c : Option String)
      → (k == "rollback" && exists fs (root // n)) ≡ false
      → point (some n) (some k) c ≡ []
  unfolding point
  no_point n k none h = refl
  no_point n k (some c) h = ground arith

  due_here :
      (n k t : String)
      → k == "temporary" ≡ true
      → exists fs (root // n) ≡ true
      → due_name (some n) (some k) (some t) ≡ (if is_due (due t now) then n ∷ [] else [])
  unfolding due_name
  due_here n k t h there = ground arith

  not_due :
      (n k : String) (t : Option String)
      → (k == "temporary" && exists fs (root // n)) ≡ false
      → due_name (some n) (some k) t ≡ []
  unfolding due_name
  not_due n k none h = refl
  not_due n k (some t) h = ground arith

  -- What an entry of that name and kind adds.
  Adds : Entry → String → String → Scan → Scan → Type 0
  Adds e k n s s' =
      (s'.rollback ≡ s.rollback ++ point (some n) (some k) e.created_at)
      × (s'.targets ≡ s.targets ++ due_name (some n) (some k) e.expires_at)

  module _ (is_mount : FilePath → Bool) (e : Entry) (k n : String) (s s' : Scan) where
    absent-Adds : exists fs (root // n) ≡ false → Adds e k n s s
    unfolding Adds
    absent-Adds h = (
      rw (no_point n k e.created_at (ground arith)) (sym (append-nil _)),
      rw (not_due n k e.expires_at (ground arith)) (sym (append-nil _)),
    )

    not_both : k == "rollback" ≡ true → (k == "temporary" && exists fs (root // n)) ≡ false
    not_both b = ground (arith, eq_iff "rollback" "temporary")

    classify-Adds :
        (k == "rollback" ≡ false → k == "temporary" ≡ true)
        → exists fs (root // n) ≡ true
        → classify is_mount due root now fs e k n s ≡ ok s'
        → Adds e k n s s'
    unfolding classify Adds is_due
    classify-Adds other there h = elim (Bool-cases (k == "rollback")) [
      | inl b ↦
          let (created, at, done) = bind-ok (or_refuse e.created_at crash) _ (rw b at h) in
          subst (Adds e k n s) (ok-injective done) (
            rw (or_refuse-ok _ _ at, point_here n k created b there) refl,
            rw (not_due n k e.expires_at (not_both b)) (sym (append-nil _)),
          )
      | inr b ↦
          let (expires, at, h1) = bind-ok (or_refuse e.expires_at crash) _ (rw b at h) in
          let (answer, then_due, done) = bind-ok (due expires now) _ h1 in
          subst (Adds e k n s) (ok-injective done) (elim (Bool-cases answer) [
            | inl d ↦ rw d (
              rw (no_point n k e.created_at (ground (arith, b))) (sym (append-nil _)),
              rw (or_refuse-ok _ _ at, due_here n k expires (other b) there, then_due, d) refl,
            )
            | inr d ↦ rw d (
              rw (no_point n k e.created_at (ground (arith, b))) (sym (append-nil _)),
              rw (or_refuse-ok _ _ at, due_here n k expires (other b) there, then_due, d)
                  (sym (append-nil _)),
            )
          ])
    ]

    examine-Adds :
        (k == "rollback" ≡ false → k == "temporary" ≡ true)
        → examine is_mount due root now fs e k n s ≡ ok s'
        → Adds e k n s s'
    unfolding examine
    examine-Adds other h =
        elim (Bool-cases (not (exists fs (root // n)) && not (is_symlink fs (root // n)))) [
          | inl gone ↦
              subst (Adds e k n s) (ok-injective (rw gone at h)) (absent-Adds (ground arith))
          | inr there ↦
              let (no_link, h1) =
                then-ok (refuse_if (is_symlink fs (root // n) || not (root == root)) _) _
                  (rw there at h) in
              let (own, h2) =
                then-ok
                  (refuse_if
                    (is_dir fs (root // n) && any_foreign is_mount due root now fs fs (root // n))
                    _)
                  _ h1 in
              let a = refuse_if-ok _ _ no_link in classify-Adds other (ground arith) h2
        ]

  allowed_kind :
      (k n : String) → allowed k n ≡ ok tt → k == "rollback" ≡ false → k == "temporary" ≡ true
  unfolding allowed
  allowed_kind k n h other = elim (Bool-cases (k == "temporary")) [
    | inl t ↦ t
    | inr t ↦ absurd (ground arith)
  ]

  module _ (is_mount : FilePath → Bool) where
    step-Adds :
        (e : Entry) (s s' : Scan)
        → step is_mount due root now fs e s ≡ ok s'
        → (s'.rollback ≡ s.rollback ++ point e.name e.kind e.created_at)
          × (s'.targets ≡ s.targets ++ due_name e.name e.kind e.expires_at)
    unfolding step Adds
    step-Adds e s s' h =
        let (n, found, h1) = bind-ok (or_refuse e.name crash) _ h in
        let (fit, h2) =
          then-ok (refuse_if (contains s.seen n || contains protected n || not (is_plain n)) _) _
            h1 in
        let (kind, sort_of, h3) = bind-ok (or_refuse e.kind crash) _ h2 in
        let (may, h4) = then-ok (allowed kind n) _ h3 in
        let added = examine-Adds is_mount e kind n _ s' (allowed_kind kind n may) h4 in
        rw (or_refuse-ok _ _ found, or_refuse-ok _ _ sort_of) added

    scan-Adds :
        (es : List Entry) (s s' : Scan)
        → scan is_mount due root now fs es s ≡ ok s'
        → (s'.rollback ≡ s.rollback ++ points es) × (s'.targets ≡ s.targets ++ dues es)
    unfolding scan points dues
    scan-Adds [] s s' h =
        subst (λ (x : Scan). (x.rollback ≡ s.rollback ++ []) × (x.targets ≡ s.targets ++ []))
          (ok-injective h) (sym (append-nil _), sym (append-nil _))
    scan-Adds (e ∷ es) s s' h =
        let (s1, first, rest) = bind-ok (step is_mount due root now fs e s) _ h in
        let a = step-Adds e s s1 first in
        let b = scan-Adds es s1 s' rest in
        (
          b.0
              ∙ ap (λ (l : List (String × String)). l ++ points es) a.0
              ∙ append_assoc s.rollback _ _,
          b.1 ∙ ap (λ (l : List String). l ++ dues es) a.1 ∙ append_assoc s.targets _ _,
        )

    -- The rollback points are split in those that are kept and those that go: at most three are kept,
    -- three if any goes, and a kept one is no older than one that goes.
    pub record Split (entries : List Entry) (kept gone : List (String × String)) : Type 0 where
      pub all_points : Perm (kept ++ gone) (points entries)
      pub newest :
          All (λ (p : String × String). All (λ (q : String × String). newer p q ≡ true) gone) kept
      pub at_most : length kept ≤ 3
      pub three : gone ≢ [] → length kept ≡ 3

    -- What `plan` returns is, in some order, all due temporary artifacts that are there and the
    -- rollback points that go: of the registered rollback points that are there the three newest are
    -- kept, by their times and then their names.
    pub plan-Split :
        (entries : List Entry) (names : List String)
        → plan is_mount due root now fs entries ≡ ok names
        → (kept : List (String × String)) × ((gone : List (String × String)) × (Split entries kept
                gone
              × Perm names (dues entries ++ names_of gone)))
    unfolding plan chosen
    plan-Split entries names h =
        let (s, scanned, done) =
          bind-ok
            (scan is_mount due root now fs entries
              (record { targets = []; rollback = []; seen = [] }))
            _ h in
        let (a, b) = scan-Adds entries _ s scanned in
        let sorted = sort newer s.rollback in
        (
          take 3 sorted,
          (
            drop 3 sorted,
            (
              record {
                all_points = rw (append-take-drop 3 sorted) (
                    subst (λ (l : List (String × String)). Perm sorted l) a
                      (sort-Perm newer s.rollback));
                newest =
                    take-drop-Ascending newer 3 sorted
                      (sort-Ascending newer newer-total newer_trans s.rollback);
                at_most = length-take_le 3 sorted;
                three = length-take_eq 3 sorted;
              },
              subst (λ (l : List String). Perm l (dues entries ++ names_of (drop 3 sorted)))
                  (ok-injective done)
                  (subst
                    (λ (l : List String).
                      Perm (sort le (chosen is_mount due root now fs s))
                        (l ++ names_of (drop 3 sorted)))
                    b (sort-Perm le _)),
            ),
          ),
        )

-- ===== src/Setup/Checks/Version/Pattern.antt =====
-- What the check of a release version accepts, as a description of the pattern.
use see_size.Base.{
  ℕ, String, ◌≡◌, refl, ◌≢◌, ◌↔◌, Bool, true, false, List, [], ◌∷◌, ◌++◌, arith, Bool-cases, inl,
  inr,
}
use see_size.Base.Text.{all_of, codes}
use see_size.Script.{Machine, ok}
use see_size.Setup.Checks.Version.{
  version, is_version, digits_then, dot_then, patch_end, minor_end, label_end, is_label_char,
}

module _ (decimal : ℕ → Bool) where
  abbrev pub IsDigits : List ℕ → Type 0
  IsDigits s = (s ≢ []) × (all_of decimal s ≡ true)

  -- A hyphen and one or more label characters, or nothing.
  abbrev pub IsLabel : List ℕ → Type 0
  IsLabel [] = Unit
  IsLabel (c ∷ s) = (c ≡ b'-') × (s ≢ []) × (all_of is_label_char s ≡ true)

  -- v, three numbers with dots between them, and a label.
  pub record IsVersion (s : List ℕ) : Type 0 where
    pub major : List ℕ
    pub minor : List ℕ
    pub patch : List ℕ
    pub label : List ℕ
    pub major_digits : IsDigits major
    pub minor_digits : IsDigits minor
    pub patch_digits : IsDigits patch
    pub label_form : IsLabel label
    pub spelled : s ≡ b'v' ∷ major ++ (b'.' ∷ minor ++ (b'.' ∷ patch ++ label))

  label_end-IsLabel : (s : List ℕ) → label_end s ≡ true → IsLabel s
  unfolding label_end
  label_end-IsLabel [] h = tt
  label_end-IsLabel (c ∷ []) h = cc
  label_end-IsLabel (c ∷ d ∷ s) h = ground arith

  IsLabel-label_end : (s : List ℕ) → IsLabel s → label_end s ≡ true
  unfolding label_end
  IsLabel-label_end [] h = refl
  IsLabel-label_end (c ∷ []) h = absurd (h.1 refl)
  IsLabel-label_end (c ∷ d ∷ s) h = ground arith

  -- A text that begins with digits, and what comes after them.
  record Split (k : List ℕ → Bool) (seen : Bool) (s : List ℕ) : Type 0 where
    digits : List ℕ
    rest : List ℕ
    all : all_of decimal digits ≡ true
    some_digit : seen ≡ false → digits ≢ []
    joined : s ≡ digits ++ rest
    taken : k rest ≡ true

  digits_then-Split :
      (k : List ℕ → Bool) (seen : Bool) (s : List ℕ)
      → digits_then decimal k seen s ≡ true
      → Split k seen s
  unfolding digits_then all_of
  digits_then-Split k seen [] h = record {
    digits = [];
    rest = [];
    all = refl;
    some_digit = λ e. ground arith;
    joined = refl;
    taken = ground arith;
  }
  digits_then-Split k seen (c ∷ s) h = elim (Bool-cases (decimal c)) [
    | inl d ↦
        let more = digits_then-Split k true s (ground arith) in
        record {
          digits = c ∷ more.digits;
          rest = more.rest;
          all = ground (arith, more.all);
          some_digit = λ e f. cc;
          joined = cc more.joined;
          taken = more.taken;
        }
    | inr d ↦ record {
      digits = [];
      rest = c ∷ s;
      all = refl;
      some_digit = λ e. ground arith;
      joined = refl;
      taken = ground arith;
    }
  ]

  abbrev Stops : List ℕ → Type 0
  Stops [] = Unit
  Stops (c ∷ s) = decimal c ≡ false

  digits_then_seen :
      (k : List ℕ → Bool) (digits rest : List ℕ)
      → all_of decimal digits ≡ true
      → Stops rest
      → digits_then decimal k true (digits ++ rest) ≡ k rest
  unfolding digits_then all_of
  digits_then_seen k [] [] a st = refl
  digits_then_seen k [] (c ∷ rest) a st = ground arith
  digits_then_seen k (c ∷ digits) rest a st = ground (arith, digits_then_seen k digits rest)

  digits_then_lem :
      (k : List ℕ → Bool) (digits rest : List ℕ)
      → IsDigits digits
      → Stops rest
      → digits_then decimal k false (digits ++ rest) ≡ k rest
  unfolding digits_then all_of
  digits_then_lem k [] rest a st = absurd (a.0 refl)
  digits_then_lem k (c ∷ digits) rest a st = ground (arith, digits_then_seen k digits rest)

  IsLabel-Stops : (s : List ℕ) → decimal b'-' ≡ false → IsLabel s → Stops s
  IsLabel-Stops [] h l = tt
  IsLabel-Stops (c ∷ s) h l = ground arith

  dot_then-Split :
      (k : List ℕ → Bool) (s : List ℕ)
      → dot_then k s ≡ true
      → (rest : List ℕ) × (s ≡ b'.' ∷ rest) × (k rest ≡ true)
  dot_then-Split k [] h = cc
  dot_then-Split k (c ∷ s) h = (s, ground arith, ground arith)

  IsVersion-is_version :
      (s : List ℕ)
      → decimal b'.' ≡ false
      → decimal b'-' ≡ false
      → IsVersion s
      → is_version decimal s ≡ true
  unfolding is_version
  IsVersion-is_version s dot hyphen v = rw v.spelled (
      rw (digits_then_lem _ v.major _ v.major_digits dot) (
        rw (digits_then_lem _ v.minor _ v.minor_digits dot) (
          rw
            (digits_then_lem _ v.patch _ v.patch_digits (IsLabel-Stops v.label hyphen v.label_form))
            (IsLabel-label_end v.label v.label_form))))

  is_version-IsVersion : (s : List ℕ) → is_version decimal s ≡ true → IsVersion s
  unfolding is_version
  is_version-IsVersion [] h = cc
  is_version-IsVersion (c ∷ s) h =
      let a = digits_then-Split (dot_then (minor_end decimal)) false s (ground arith) in
      let a' = dot_then-Split (minor_end decimal) a.rest a.taken in
      let b = digits_then-Split (dot_then (patch_end decimal)) false a'.0 a'.2 in
      let b' = dot_then-Split (patch_end decimal) b.rest b.taken in
      let d = digits_then-Split label_end false b'.0 b'.2 in
      record {
        major = a.digits;
        minor = b.digits;
        patch = d.digits;
        label = d.rest;
        major_digits = (a.some_digit refl, a.all);
        minor_digits = (b.some_digit refl, b.all);
        patch_digits = (d.some_digit refl, d.all);
        label_form = label_end-IsLabel d.rest d.taken;
        spelled = ground (arith, a.joined, a'.1, b.joined, b'.1, d.joined);
      }

-- A version is accepted exactly when it has the form v1.2.3 or v1.2.3-label, for whatever class of
-- digits `\d` stands for, as long as a dot and a hyphen are none; it is then returned unchanged.
pub version_iff :
    (m : Machine) (value : String)
    → m.decimal b'.' ≡ false
    → m.decimal b'-' ≡ false
    → (version m value ≡ ok value) ↔ IsVersion m.decimal (codes value)
unfolding version
version_iff m value dot hyphen = (
  λ h. is_version-IsVersion m.decimal (codes value) (ground arith),
  λ v. rw (IsVersion-is_version m.decimal (codes value) dot hyphen v),
)

-- ===== src/Fs/Laws.antt =====
-- What each change of the file system does to a path, and what it leaves alone.
use see_size.Base.{
  ℕ, zero, suc, ◌<◌, ◌==◌, ◌≡◌, refl, ◌≢◌, list_eq, string_eq, nat_eq, true, false, not, Option,
  none, some, [], ◌∷◌, arith, if◌then◌else◌, length, ◌≤◌, ap, Option-cases, Bool-cases, inl, inr,
  String,
}
use see_size.Base.Dict.{lookup, erase, lookup-insert, lookup-keep}
use see_size.Fs.{
  FilePath, Bytes, Node, Kind, file, folder, link, follow, hop, Fs, content, content_at, exists,
  holds, size, stat, under, remove_tree, written, put_file, set_mode, move_file, shift, move_tree,
  vacant,
}

pub lookup-put_file_ne :
    (p q : FilePath) (b : Bytes) (uid mode now : ℕ) (fs : Fs)
    → q ≢ p
    → lookup q (put_file p b uid mode now fs) ≡ lookup q fs
unfolding put_file
lookup-put_file_ne p q b uid mode now fs h =
    ground (arith, lookup-insert q p (written b uid mode now (lookup p fs)) fs)

pub content_at-content :
    (p : FilePath) (fs : Fs) {b : Bytes} → content fs p ≡ some b → content_at fs p ≡ some b
unfolding stat
content_at-content p fs h = ground arith

-- A regular file exists, and its size is that of its bytes.
pub content-exists :
    (p : FilePath) (fs : Fs) {b : Bytes} → content fs p ≡ some b → exists fs p ≡ true
unfolding stat
content-exists p fs h = ground arith

pub content-size :
    (p : FilePath) (fs : Fs) {b : Bytes}
    → content fs p ≡ some b
    → 1 ≤ length b
    → holds (λ n. size n == 0) (stat fs p) ≡ false
unfolding stat
content-size p fs {b} h long = ground arith

pub content-put_file :
    (p : FilePath) (b : Bytes) (uid mode now : ℕ) (fs : Fs)
    → content (put_file p b uid mode now fs) p ≡ some b
unfolding put_file
content-put_file p b uid mode now fs =
    ground (arith, lookup-insert p p (written b uid mode now (lookup p fs)) fs)

-- A new file has the mode that it is made with, and a file that is there keeps its own.
pub mode-put_file :
    (p : FilePath) (b : Bytes) (uid mode now : ℕ) (fs : Fs)
    → ((n : Node) → lookup p fs ≡ some n → n.mode ≡ mode)
    → (n : Node) × ((lookup p (put_file p b uid mode now fs) ≡ some n) × (n.mode ≡ mode))
unfolding put_file
mode-put_file p b uid mode now fs h = elim (Option-cases (lookup p fs)) [
  | inl e ↦ (
    written b uid mode now none,
    (ground (arith, e, lookup-insert p p (written b uid mode now (lookup p fs)) fs), refl),
  )
  | inr (n, e) ↦ (
    written b uid mode now (some n),
    (ground (arith, e, lookup-insert p p (written b uid mode now (lookup p fs)) fs), h n e),
  )
]

pub lookup-set_mode_ne :
    (p q : FilePath) (mode : ℕ) (fs : Fs) → q ≢ p → lookup q (set_mode p mode fs) ≡ lookup q fs
unfolding set_mode
lookup-set_mode_ne p q mode fs h = go (lookup p fs) refl
  where
    go : (o : Option Node) → lookup p fs ≡ o → lookup q (set_mode p mode fs) ≡ lookup q fs
    go none e = ground arith
    go (some n) e = ground (arith, lookup-insert q p (record n { mode = mode }) fs)

pub content-set_mode :
    (p q : FilePath) (mode : ℕ) (fs : Fs) → content (set_mode p mode fs) q ≡ content fs q
unfolding set_mode
content-set_mode p q mode fs = go (lookup p fs) refl
  where
    go : (o : Option Node) → lookup p fs ≡ o → content (set_mode p mode fs) q ≡ content fs q
    go none e = ground arith
    go (some n) e = ground (arith, lookup-insert q p (record n { mode = mode }) fs)

pub lookup-remove_tree :
    (p d : FilePath) (fs : Fs)
    → lookup p (remove_tree d fs) ≡ (if under d p then none else lookup p fs)
unfolding remove_tree
lookup-remove_tree p d fs = ground (arith, lookup-keep p (λ q. not (under d q)) fs)

pub lookup-erase :
    (p q : FilePath) (fs : Fs) → lookup q (erase p fs) ≡ (if q == p then none else lookup q fs)
lookup-erase p q fs = ground (arith, lookup-keep q (λ r. not (r == p)) fs)

-- A path of no greater length than another folder's does not lie below it.
pub under-length : (d p : FilePath) → under d p ≡ true → length d ≤ length p
unfolding under
under-length d [] h = elim (list_eq.dec d []) [ yes e ↦ rw e (omega arith) | no e ↦ ground arith ]
under-length d (n ∷ p) h = elim (list_eq.dec d (n ∷ p)) [
  | yes e ↦ rw e (omega arith)
  | no e ↦ ground (arith, under-length d p)
]

length_path : (p q : FilePath) → p ≡ q → length p ≡ length q
length_path p q e = ap (λ (r : FilePath). length r) e

pub under_self : (d : FilePath) → under d d ≡ true
unfolding under
under_self [] = ground arith
under_self (n ∷ d) = ground arith

pub content-move_file :
    (p q : FilePath) (fs : Fs) {b : Bytes}
    → content fs p ≡ some b
    → content (move_file p q fs) q ≡ some b
unfolding move_file
content-move_file p q fs h = elim (Option-cases (lookup p fs)) [
  | inl e ↦ ground arith
  | inr (n, e) ↦ ground (arith, e, lookup-insert q q n (erase p fs))
]

pub lookup-move_file_ne :
    (p q r : FilePath) (fs : Fs) → r ≢ p → r ≢ q → lookup r (move_file p q fs) ≡ lookup r fs
unfolding move_file
lookup-move_file_ne p q r fs hp hq = go (lookup p fs) refl
  where
    go : (o : Option Node) → lookup p fs ≡ o → lookup r (move_file p q fs) ≡ lookup r fs
    go none e = ground arith
    go (some n) e = ground (arith, lookup-insert r q n (erase p fs), lookup-erase p r fs)

pub lookup-move_file_self : (p q : FilePath) (fs : Fs) → p ≢ q → lookup p (move_file p q fs) ≡ none
unfolding move_file
lookup-move_file_self p q fs hq = go (lookup p fs) refl
  where
    go : (o : Option Node) → lookup p fs ≡ o → lookup p (move_file p q fs) ≡ none
    go none e = ground arith
    go (some n) e = ground (arith, lookup-insert p q n (erase p fs), lookup-erase p p fs)

-- Renaming a folder.
module _ (p q : FilePath) where
  shift_out : (r : FilePath) → under p r ≡ false → shift p q r ≡ r
  unfolding under shift
  shift_out [] h = ground arith
  shift_out (n ∷ r) h = ground (arith, shift_out r)

  under-shift : (r : FilePath) → under p r ≡ true → under q (shift p q r) ≡ true
  unfolding under shift
  under-shift [] h = ground (arith, under_self q)
  under-shift (n ∷ r) h = ground (arith, under_self q, under-shift r)

  pub lookup-move_tree_ne :
      (r : FilePath) (fs : Fs)
      → under p r ≡ false
      → under q r ≡ false
      → lookup r (move_tree p q fs) ≡ lookup r fs
  unfolding move_tree lookup
  lookup-move_tree_ne r [] hp hq = refl
  lookup-move_tree_ne r ((k, n) ∷ fs) hp hq = elim (Bool-cases (under p k)) [
    | inl i ↦ ground (arith, lookup-move_tree_ne r fs hp hq, under-shift k i)
    | inr o ↦ ground (arith, lookup-move_tree_ne r fs hp hq, shift_out k o)
  ]

  shift_to_top : (r : FilePath) → under q r ≡ false → shift p q r ≡ q → r ≡ p
  unfolding shift under
  shift_to_top [] h e = ground (arith, under_self q)
  shift_to_top (n ∷ r) h e = elim (Bool-cases (under p r)) [
    | inl i ↦
        ground (
          arith,
          under-length q (shift p q r) (under-shift r i),
          length_path (shift p q (n ∷ r)) q e,
        )
    | inr o ↦ ground (arith, shift_out r o, under_self q)
  ]

  shift_self : shift p q p ≡ q
  unfolding shift
  shift_self = go p
    where
      go : (r : FilePath) → shift r q r ≡ q
      go [] = ground arith
      go (n ∷ r) = ground arith

  shift_child : (n : String) → shift p q (n ∷ p) ≡ n ∷ q
  unfolding shift
  shift_child n = ground (arith, shift_self, length_path p (n ∷ p))

  shift_to_child : (n : String) (r : FilePath) → under q r ≡ false → shift p q r ≡ n ∷ q → r ≡ n ∷ p
  unfolding shift under
  shift_to_child n [] h e = ground (arith, length_path q (n ∷ q))
  shift_to_child n (m ∷ r) h e = ground (arith, shift_to_top r, length_path q (n ∷ q))

  -- What lay directly in the folder lies in its new place.
  pub lookup-move_tree_child :
      (n : String) (fs : Fs)
      → vacant q fs ≡ true
      → lookup (n ∷ q) (move_tree p q fs) ≡ lookup (n ∷ p) fs
  unfolding move_tree lookup vacant
  lookup-move_tree_child n [] h = refl
  lookup-move_tree_child n ((k, x) ∷ fs) h =
      ground (arith, lookup-move_tree_child n fs, shift_child n, shift_to_child n k)

-- A path is not below a folder that it is not, if its parent is not.
pub under_cons :
    (d p : FilePath) (n : String) → d ≢ n ∷ p → under d p ≡ false → under d (n ∷ p) ≡ false
unfolding under
under_cons d p n h k = ground arith

pub under_short : (d p : FilePath) → length p < length d → under d p ≡ false
under_short d p h = elim (Bool-cases (under d p)) [
  | inl e ↦ absurd (omega (arith, under-length d p e))
  | inr e ↦ e
]

-- What is not below a folder is not below a folder in it.
pub outside_child : (d q : FilePath) (n : String) → under d q ≡ false → under (n ∷ d) q ≡ false
unfolding under
outside_child d [] n h = ground arith
outside_child d (x ∷ q) n h = elim (list_eq.dec (n ∷ d) (x ∷ q)) [
  | yes e ↦ absurd (ground (arith, e, under_self d, h))
  | no e ↦ ground (arith, outside_child d q n)
]

-- Where a path leads is not changed by what happens at a path where nothing stood.
follow_agree :
    (fuel : ℕ) (fs fs' : Fs) (t q : FilePath) {n : Node}
    → lookup t fs ≡ none
    → ((r : FilePath) → r ≢ t → lookup r fs' ≡ lookup r fs)
    → follow fuel fs q ≡ some n
    → follow fuel fs' q ≡ some n
unfolding follow
follow_agree zero fs fs' t q free same h = ground arith
follow_agree (suc fuel) fs fs' t q {n} free same h = elim (Option-cases (lookup q fs)) [
  | inl e ↦ absurd (ground arith)
  | inr (k, e) ↦
      let here = same q (λ at. ground (arith, e, at, free)) in
      let reached =
        onward (λ r. follow_agree fuel fs fs' t r free same) k k.kind refl (ground (arith, e, h)) in
      ground (arith, here, e, reached)
]
  where
    onward :
        ((r : FilePath) → follow fuel fs r ≡ some n → follow fuel fs' r ≡ some n)
        → (k : Node) (kind : Kind) → k.kind ≡ kind
        → hop (follow fuel fs) k ≡ some n
        → hop (follow fuel fs') k ≡ some n
    onward next k (link r) is g = rw is (next r (rw is at g))
    onward next k (file b) is g = ground (arith, is)
    onward next k folder is g = ground (arith, is)

pub content_at_agree :
    (fs fs' : Fs) (t q : FilePath) {b : Bytes}
    → lookup t fs ≡ none
    → ((r : FilePath) → r ≢ t → lookup r fs' ≡ lookup r fs)
    → content_at fs q ≡ some b
    → content_at fs' q ≡ some b
unfolding stat
content_at_agree fs fs' t q free same h = elim (Option-cases (follow 41 fs q)) [
  | inl e ↦ absurd (ground arith)
  | inr (n, e) ↦ ground (arith, e, follow_agree 41 fs fs' t q free same e)
]

pub lookup-move_file_source :
    (p q : FilePath) (fs : Fs) → p ≢ q → lookup p (move_file p q fs) ≡ none
unfolding move_file
lookup-move_file_source p q fs h = elim (Option-cases (lookup p fs)) [
  | inl e ↦ ground (arith, e)
  | inr (n, e) ↦ ground (arith, e, lookup-insert p q n (erase p fs), lookup-erase p p fs)
]

pub missing-exists : (p : FilePath) (fs : Fs) → lookup p fs ≡ none → exists fs p ≡ false
unfolding stat
missing-exists p fs h = ground (arith, h)

-- Paths of different length.
pub apart_by_length : (p q : FilePath) → length p ≢ length q → p ≢ q
apart_by_length p q h e = h (ap (λ (r : FilePath). length r) e)

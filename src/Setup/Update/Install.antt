-- ===== src/Setup/Update/Install.antt =====
-- `install_from`: the files of a folder take the place of the installed ones, one by one.
use see_size.Base.{
  String, string_eq, list_eq, ◌≡◌, refl, ◌≢◌, ◌⊎◌, inl, inr, ap, false, List, ◌∷◌, All, arith,
  contains, length,
}
use see_size.Fs.{FilePath, ◌//◌, Bytes}
use see_size.Script.{Machine, World, Result, ok, err}
use see_size.Script.Rules.{
  Outcome, Triple, Keeps, Keeps-and, Triple-and, Triple-weaken, Keeps-all, Keeps-some,
  Triple-each_of,
}
use see_size.Script.Frame.{Holds}
use see_size.Setup.{root, package_files}
use see_size.Setup.Replace.{atomic_copy, marker}
use see_size.Setup.Replace.Atomic.{atomic_copy-Holds, atomic_copy-Triple}
use see_size.Setup.Update.{install_from}
use see_size.Setup.Update.Slots.{InPackage, Root, Present, Folder, Work, Saved}

child_ne : (n x : String) → n ≢ x → root // n ≢ root // x
child_ne n x h e = ground arith

deep_ne : (s d n x : String) → Work s // d // n ≢ root // x
deep_ne s d n x e = omega (arith, ap (λ (p : FilePath). length p) e)

marker_ne : (s x : String) → marker (Work s) ≢ root // x
marker_ne s x e = omega (arith, ap (λ (p : FilePath). length p) e)

pub package_members : All InPackage package_files
unfolding string_eq
package_members = (refl, (refl, (refl, (refl, tt))))

module _ (m : Machine) (p : FilePath) (x : String) where
  Folder-atomic_copy :
      (s d : String) (c : String → Bytes)
      → Keeps (Folder (Work s // d) c) (atomic_copy m p (root // x))
  Folder-atomic_copy s d c =
      Keeps-all _ λ n. Keeps-all _ λ i. atomic_copy-Holds m p (root // x) _ (deep_ne s d n x)

  Saved-atomic_copy :
      (s : String) (old : String → Bytes) (mark : Bytes)
      → Keeps (Saved s old mark) (atomic_copy m p (root // x))
  Saved-atomic_copy s old mark =
      Triple-weaken (λ w k. (k.previous, k.marked))
        (λ a w k. record { previous = k.0; marked = k.1 })
        (λ e w k. record { previous = k.0; marked = k.1 })
        (Keeps-and (Folder-atomic_copy s "previous" old)
          (atomic_copy-Holds m p (root // x) _ (marker_ne s x)))

  -- The installed file is replaced; the others, and it too, stay present.
  Present-atomic_copy :
      (b : Bytes)
      → InPackage x
      → Triple
          (λ w. Holds p b w × Present w)
          (atomic_copy m p (root // x))
          (λ _ w. Holds (root // x) b w × Present w)
          (λ _. Present)
  Present-atomic_copy b i = record {
    run = λ w k.
        let c = k.1 x i in
        go c.0 (atomic_copy m p (root // x) w)
          ((atomic_copy-Triple m p (root // x)).run w (k.0, c.1))
          λ n j ne.
            (Keeps-some _
                (λ a. atomic_copy-Holds m p (root // x) (root // n) (child_ne n x ne))).run
              w (k.1 n j);
  }
    where
      there :
          (c : Bytes) (v : World)
          → Holds (root // x) c v
          → ((n : String) → InPackage n → n ≢ x → (a : Bytes) × Holds (root // n) a v)
          → Present v
      there c v h f n j = elim (string_eq.dec n x) [ yes e ↦ (c, rw e h) | no ne ↦ f n j ne ]

      go :
          (old : Bytes) (o : Result (Unit {0}) × World)
          → Outcome {A = Unit}
              (λ _. Holds (root // x) b)
              (λ _ w. Holds (root // x) old w ⊎ Holds (root // x) b w)
              o
          → ((n : String)
              → InPackage n
              → n ≢ x
              → Outcome {A = Unit}
                  (λ _ w. (a : Bytes) × Holds (root // n) a w)
                  (λ _ w. (a : Bytes) × Holds (root // n) a w)
                  o)
          → Outcome {A = Unit} (λ _ w. Holds (root // x) b w × Present w) (λ _. Present) o
      go old (ok u, v) h f = (h, there b v h f)
      go old (err y, v) (inl h) f = there old v h f
      go old (err y, v) (inr h) f = there b v h f

  -- The files that are installed already stay.
  done :
      (c : String → Bytes) (xs : List String)
      → Keeps
          (λ w.
            (n : String) → InPackage n → contains (x ∷ xs) n ≡ false → Holds (root // n) (c n) w)
          (atomic_copy m p (root // x))
  done c xs = Keeps-all _ λ n. Keeps-all _ λ i.
      Keeps-all _
        λ h. atomic_copy-Holds m p (root // x) (root // n) (child_ne n x (λ e. ground arith))

-- While files are installed from a folder of the workspace, the files there and the saved ones stay,
-- and every file of the package is there at any time; after a return all are those of the folder.
module _ (m : Machine) (s d : String) (c old : String → Bytes) (mark : Bytes) where
  abbrev pub Kit : World → Type 0
  Kit w = Folder (Work s // d) c w × Saved s old mark w × Present w

  abbrev pub Ready : World → Type 0
  Ready w = Kit w × Root c w

  abbrev Progress : List String → World → Type 0
  Progress xs w =
      Kit w × ((n : String) → InPackage n → contains xs n ≡ false → Holds (root // n) (c n) w)

  install_one :
      (x : String) (xs : List String)
      → InPackage x
      → Triple
          (Progress (x ∷ xs))
          (atomic_copy m (Work s // d // x) (root // x))
          (λ _. Progress xs)
          (λ _. Kit)
  install_one x xs i =
      Triple-weaken (λ w k. (((k.0.0 x i, k.0.2), (k.0.0, k.0.1)), k.1))
        (λ _ w k. (
          (k.0.1.0, k.0.1.1, k.0.0.1),
          λ n j out. elim (string_eq.dec n x) [
            | yes e ↦ rw e k.0.0.0
            | no ne ↦ k.1 n j (ground arith)
          ],
        ))
        (λ _ w k. (k.0.1.0, k.0.1.1, k.0.0))
        (Triple-and
          (Triple-and (Present-atomic_copy m (Work s // d // x) x (c x) i)
            (Keeps-and (Folder-atomic_copy m _ x s d c) (Saved-atomic_copy m _ x s old mark)))
          (done m (Work s // d // x) x c xs))

  pub install_from-Triple : Triple Kit (install_from m (Work s // d)) (λ _. Ready) (λ _. Kit)
  unfolding install_from
  install_from-Triple =
      Triple-weaken (λ w k. (k, λ n i out. cc)) (λ _ w k. (k.0, λ n i. k.1 n i refl)) (λ _ w k. k)
        (Triple-each_of InPackage Progress install_one package_files package_members)

-- ===== src/Setup/Replace/Atomic.antt =====
-- `atomic_copy`: whatever fails, the destination has its old bytes or the source's.
use see_size.Base.{◌≢◌, ◌⊎◌, inl, inr, arith}
use see_size.Fs.{FilePath, Bytes, move_file}
use see_size.Fs.Laws.{content_at-content, content-put_file, content-move_file}
use see_size.Script.{Machine, World, ◌>>◌}
use see_size.Script.Files.{copy_file, chmod, rename}
use see_size.Script.Rules.{
  Outcome, Triple, Keeps, Triple-bind, Triple-weaken, Triple-finally, Triple-and, Triple-given,
}
use see_size.Script.Frame.{Holds, read_lem, write_lem, change_lem, guarded_lem}
use see_size.Script.Frame.Keep.{
  copy_file-Holds, chmod-Holds, rename-Holds, unlink_if_there-Holds, make_temp_file-Holds,
}
use see_size.Setup.Replace.{atomic_copy, copy_mode, fsync}

module _ (m : Machine) where
  -- A file other than the destination is left alone.
  pub atomic_copy-Holds :
      (p q : FilePath) (r : FilePath) {b : Bytes} → r ≢ q → Keeps (Holds r b) (atomic_copy m p q)
  unfolding atomic_copy
  atomic_copy-Holds p q r h = Triple-bind (make_temp_file-Holds m r _ _) λ t. Triple-given λ n.
      Triple-finally
        (Triple-bind (copy_file-Holds m r p t n) λ _.
          Triple-bind (chmod-Holds m r t _)
            λ _. Triple-bind (change_lem m _ (λ w k. k) (λ w k. k)) λ _. rename-Holds m r t q n h)
        (λ _. unlink_if_there-Holds m r t n) (λ _. unlink_if_there-Holds m r t n)

  -- What a copy reads is what the source holds.
  pub copy_file-Triple :
      (p q : FilePath) {b : Bytes}
      → Triple (Holds p b) (copy_file m p q) (λ _. Holds q b) (λ _ w. Unit)
  unfolding copy_file
  copy_file-Triple p q {b} =
      Triple-bind (Triple-weaken (λ w k. k) (λ _ w k. k) (λ _ w k. tt) (read_lem m p)) λ body.
        write_lem m q body 0o644
          (λ w now k.
            ground
              (arith, content-put_file q body m.euid 0o644 now w.fs, content_at-content p w.fs k.0))
          (λ w k. tt) (λ w part now k. tt)

  -- A rename puts the source's bytes there, or fails and leaves the old ones.
  pub rename-Triple :
      (p q : FilePath) {b c : Bytes}
      → Triple (λ w. Holds p b w × Holds q c w) (rename m p q) (λ _. Holds q b) (λ _. Holds q c)
  unfolding rename
  rename-Triple p q =
      guarded_lem m _ (λ w k. k.1)
        (change_lem m (move_file p q) (λ w k. content-move_file p q w.fs k.0.0) (λ w k. k.0.1))

  pub atomic_copy-Triple :
      (p q : FilePath) {new old : Bytes}
      → Triple
          (λ w. Holds p new w × Holds q old w)
          (atomic_copy m p q)
          (λ _. Holds q new)
          (λ _ w. Holds q old w ⊎ Holds q new w)
  unfolding atomic_copy
  atomic_copy-Triple p q {new} {old} =
      Triple-bind
        (Triple-weaken (λ w k. k) (λ t w k. ((k.0.0, k.1.0), (k.0.1, k.1.1))) (λ e w k. inl k.1)
          (Triple-and (make_temp_file-Holds m p _ _) (make_temp_file-Holds m q _ _)))
        λ t. Triple-given {F = (p ≢ t) × (q ≢ t)} λ n.
          Triple-finally (replace t n.1)
            (λ _.
              Triple-weaken (λ w k. k) (λ _ w k. k) (λ _ w k. inr k)
                (unlink_if_there-Holds m q t n.1))
            (λ _.
              Triple-weaken (λ w k. k) (λ _ w k. inl k) (λ _ w k. inl k)
                (unlink_if_there-Holds m q t n.1))
    where
      replace :
          (t : FilePath)
          → q ≢ t
          → Triple
              (λ w. Holds p new w × Holds q old w)
              (do copy_file m p t; chmod m t (copy_mode q); fsync m; rename m t q)
              (λ _. Holds q new)
              (λ _. Holds q old)
      replace t n =
          Triple-bind
            (Triple-weaken (λ w k. k) (λ _ w k. k) (λ _ w k. k.1)
              (Triple-and (copy_file-Triple p t) (copy_file-Holds m q p t n)))
            λ _.
              Triple-bind
                (Triple-weaken (λ w k. k) (λ _ w k. k) (λ _ w k. k.1)
                  (Triple-and (chmod-Holds m t t _) (chmod-Holds m q t _)))
                λ _. Triple-bind (change_lem m _ (λ w k. k) (λ w k. k.1)) λ _. rename-Triple t q

-- Whatever call of `atomic_copy` fails or is interrupted, the destination is never half written: it
-- holds its old bytes or the source's, and after a return the source's. Any other regular file,
-- here one called `other`, keeps its bytes. Source and destination are regular files before.
pub atomic_copy_lem :
    (m : Machine) (p q other : FilePath) (new old kept : Bytes) (w : World)
    → other ≢ q
    → Holds p new w
    → Holds q old w
    → Holds other kept w
    → Outcome
        (λ _ v. Holds q new v × Holds other kept v)
        (λ _ v. (Holds q old v ⊎ Holds q new v) × Holds other kept v)
        (atomic_copy m p q w)
atomic_copy_lem m p q other new old kept w apart i j k =
    (Triple-and (atomic_copy-Triple m p q) (atomic_copy-Holds m p q other apart)).run w ((i, j), k)

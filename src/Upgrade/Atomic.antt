-- ===== src/Upgrade/Atomic.antt =====
-- `atomic_json`: the register and the reports are replaced whole or not at all.
use see_size.Base.{◌≢◌, ◌⊎◌, inl, inr}
use see_size.Fs.{FilePath, Bytes}
use see_size.Fs.Laws.{content-put_file}
use see_size.Script.{Machine, World, ◌>>◌}
use see_size.Script.Files.{change, write, rename}
use see_size.Script.Rules.{
  Outcome, Triple, Keeps, Triple-bind, Triple-weaken, Triple-finally, Triple-and, Triple-given,
}
use see_size.Script.Frame.{Holds, write_lem, change_lem}
use see_size.Script.Frame.Keep.{
  rename-Holds, unlink_if_there-Holds, make_temp_file-Holds, write-Holds,
}
use see_size.Setup.Replace.Atomic.{rename-Triple}
use see_size.Upgrade.{atomic_json}

module _ (m : Machine) (p : FilePath) (body : Bytes) where
  pub atomic_json-Holds :
      (q : FilePath) {b : Bytes} → q ≢ p → Keeps (Holds q b) (atomic_json m p body)
  unfolding atomic_json
  atomic_json-Holds q h = Triple-bind (make_temp_file-Holds m q _ _) λ t. Triple-given λ n.
      Triple-finally
        (Triple-bind (write-Holds m q t body _ n)
          λ _. Triple-bind (change_lem m _ (λ w k. k) (λ w k. k)) λ _. rename-Holds m q t p n h)
        (λ _. unlink_if_there-Holds m q t n) (λ _. unlink_if_there-Holds m q t n)

  pub atomic_json-Triple :
      {old : Bytes}
      → Triple
          (Holds p old)
          (atomic_json m p body)
          (λ _. Holds p body)
          (λ _ w. Holds p old w ⊎ Holds p body w)
  unfolding atomic_json
  atomic_json-Triple {old} =
      Triple-bind
        (Triple-weaken (λ w k. k) (λ _ w k. k) (λ _ w k. inl k) (make_temp_file-Holds m p _ _))
        λ t. Triple-given λ n.
          Triple-finally (replace t n)
            (λ _.
              Triple-weaken (λ w k. k) (λ _ w k. k) (λ _ w k. inr k)
                (unlink_if_there-Holds m p t n))
            (λ _.
              Triple-weaken (λ w k. k) (λ _ w k. inl k) (λ _ w k. inl k)
                (unlink_if_there-Holds m p t n))
    where
      filled :
          (t : FilePath)
          → Triple (λ w. Unit) (write m t body 0o600) (λ _. Holds t body) (λ _ w. Unit)
      filled t =
          write_lem m t body 0o600 (λ w now k. content-put_file t body m.euid 0o600 now w.fs)
            (λ w k. tt) (λ w part now k. tt)

      replace :
          (t : FilePath)
          → p ≢ t
          → Triple
              (Holds p old)
              (do write m t body 0o600; change m (λ fs. fs); rename m t p)
              (λ _. Holds p body)
              (λ _. Holds p old)
      replace t n =
          Triple-bind
            (Triple-weaken (λ w k. (tt, k)) (λ _ w k. k) (λ _ w k. k.1)
              (Triple-and (filled t) (write-Holds m p t body 0o600 n)))
            λ _. Triple-bind (change_lem m _ (λ w k. k) (λ w k. k.1)) λ _. rename-Triple m t p

-- Whatever call of `atomic_json` fails or is interrupted, a file that was there has its old bytes or
-- the new ones, and after a return the new ones. Any other regular file, here `other`, keeps its
-- bytes.
pub atomic_json_lem :
    (m : Machine) (p other : FilePath) (body old kept : Bytes) (w : World)
    → other ≢ p
    → Holds p old w
    → Holds other kept w
    → Outcome
        (λ _ v. Holds p body v × Holds other kept v)
        (λ _ v. (Holds p old v ⊎ Holds p body v) × Holds other kept v)
        (atomic_json m p body w)
atomic_json_lem m p other body old kept w apart i k =
    (Triple-and (atomic_json-Triple m p body) (atomic_json-Holds m p body other apart)).run w (i, k)

-- ===== src/Daemon/Gc/Kept.antt =====
-- The removals of runGC, and what they leave alone: whatever only the removal of one pod changes.
use k3c.Prelude.{
  ℕ, ◌≡◌, refl, ◌∙◌, Bool, true, false, not, Option, [], ◌∷◌, all, eqb, arith, Bool-cases, inl, inr,
}
use k3c.Prelude.Text.{Text, ◌==◌}
use k3c.Prelude.Maps.{Map, at_key}
use k3c.Prelude.Results.{Error}
use k3c.Daemon.Runtime.{Runtime, Codec, Reply, done, failed}
use k3c.Daemon.Gc.{collect, collect_all, stop_and_remove, remove_stopped}

abbrev pub is_positive : ℕ → Bool
is_positive n = not (eqb n 0)

module _ (r : Runtime) (c : Codec) (seen : r.World → Bool) (j : Text)
    (stops : (id : Text) (w : r.World)
      → (id == j) ≡ false
      → seen (r.stop_pod_sandbox id w).1 ≡ seen w)
    (removes : (id : Text) (w : r.World)
      → (id == j) ≡ false
      → seen (r.remove_pod_sandbox id w).1 ≡ seen w) where
  seen-remove_stopped :
      (id : Text) (last : Option Error) (t : Reply (Unit {0}) × r.World)
      → seen (remove_stopped r c id last t).1 ≡ seen t.1
  seen-remove_stopped id last (done _, w) = refl
  seen-remove_stopped id last (failed e, w) = refl

  seen-stop_and_remove :
      (id : Text) (last : Option Error) (t : Reply (Unit {0}) × r.World)
      → (id == j) ≡ false
      → seen (stop_and_remove r c id last t).1 ≡ seen t.1
  seen-stop_and_remove id last (failed e, w) h = refl
  seen-stop_and_remove id last (done _, w) h =
      seen-remove_stopped id last (r.remove_pod_sandbox id w) ∙ removes id w h

  -- A round that does not meet a zero entry of the pod.
  pub seen-collect :
      (id : Text) (n : ℕ) (last : Option Error) (w : r.World)
      → at_key j is_positive (id, n) ≡ true
      → seen (collect r c (id, n) last w).1 ≡ seen w
  unfolding collect
  seen-collect id n last w h = elim (Bool-cases (eqb n 0)) [
    | inr e ↦ rw (e, collect) refl
    | inl e ↦
        rw (e, collect)
          (seen-stop_and_remove id last (r.stop_pod_sandbox id w) (ground arith)
            ∙ stops id w (ground arith))
  ]

  pub seen-collect_all :
      (m : Map ℕ) (last : Option Error) (w : r.World)
      → all (at_key j is_positive) m ≡ true
      → seen (collect_all r c m last w).1 ≡ seen w
  unfolding collect_all
  seen-collect_all [] last w h = refl
  seen-collect_all ((id, n) ∷ m) last w h =
      let (last', w') = collect r c (id, n) last w in
      seen-collect_all m last' w' (ground arith) ∙ seen-collect id n last w (ground arith)

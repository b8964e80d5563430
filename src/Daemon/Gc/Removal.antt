-- ===== src/Daemon/Gc/Removal.antt =====
-- What a run of the collector removes, and what it keeps.
use k3c.Prelude.{
  ℕ, ◌<◌, ◌≡◌, refl, sym, subst, ◌∙◌, Bool, true, false, Option, none, some, List, [], ◌∷◌, any,
  all, eqb, arith, Bool-cases, inl, inr, ◌⊎◌, Option-cases,
}
use k3c.Prelude.Text.{Text, ◌==◌, eq_iff, is_some}
use k3c.Prelude.Maps.{Map, at_key, all-at_key}
use k3c.Prelude.Int.{pos}
use k3c.Prelude.Results.{Error, ok}
use k3c.Cri.{PodSandbox, Container}
use k3c.Daemon.Runtime.{Runtime, Codec, Reply, done, failed, KeepsPods}
use k3c.Daemon.Gc.{IsOrder, zero_counts, readable, scan, collect, collect_all, run_gc}
use k3c.Daemon.Gc.{stop_and_remove, remove_stopped, last_result}
use k3c.Daemon.Gc.Kept.{is_positive, seen-collect, seen-collect_all}
use k3c.Daemon.Gc.Counts.{count, counts, counts-NodupKeys, lookup-counts}

module _ (r : Runtime) (c : Codec) (l : KeepsPods r) where
  has_pod-scan :
      (xs : List Container) (m : Map ℕ) (w : r.World) (j : Text)
      → l.has_pod (scan r c xs m w).1 j ≡ l.has_pod w j
  unfolding scan
  has_pod-scan [] m w j = refl
  has_pod-scan (x ∷ xs) m w j = elim (Bool-cases (readable r c x)) [
    | inl e ↦ rw (e, scan) (has_pod-scan xs _ w j)
    | inr e ↦
        rw (e, scan)
          (has_pod-scan xs m _ j ∙ l.remove_container x.id j _ ∙ l.stop_container x.id j (pos 0) w)
  ]

  has_pod-collect :
      (id : Text) (n : ℕ) (last : Option Error) (w : r.World) (j : Text)
      → at_key j is_positive (id, n) ≡ true
      → l.has_pod (collect r c (id, n) last w).1 j ≡ l.has_pod w j
  has_pod-collect id n last w j =
      seen-collect r c (λ v. l.has_pod v j) j (λ k v _. l.stop_pod k j v)
        (λ k v h. l.remove_pod k j v h) id n last w

  has_pod-collect_all :
      (m : Map ℕ) (last : Option Error) (w : r.World) (j : Text)
      → all (at_key j is_positive) m ≡ true
      → l.has_pod (collect_all r c m last w).1 j ≡ l.has_pod w j
  has_pod-collect_all m last w j =
      seen-collect_all r c (λ v. l.has_pod v j) j (λ k v _. l.stop_pod k j v)
        (λ k v h. l.remove_pod k j v h) m last w

  remove_stopped-some :
      (id : Text) (e : Error) (t : Reply (Unit {0}) × r.World)
      → is_some (remove_stopped r c id (some e) t).0 ≡ true
  remove_stopped-some id e (done _, w) = refl
  remove_stopped-some id e (failed x, w) = refl

  stop_and_remove-some :
      (id : Text) (e : Error) (t : Reply (Unit {0}) × r.World)
      → is_some (stop_and_remove r c id (some e) t).0 ≡ true
  stop_and_remove-some id e (failed x, w) = refl
  stop_and_remove-some id e (done _, w) = remove_stopped-some id e (r.remove_pod_sandbox id w)

  collect-some :
      (id : Text) (n : ℕ) (e : Error) (w : r.World)
      → is_some (collect r c (id, n) (some e) w).0 ≡ true
  unfolding collect
  collect-some id n e w = ground (arith, stop_and_remove-some id e (r.stop_pod_sandbox id w))

  -- An error of an earlier round is not lost.
  collect_all-some :
      (m : Map ℕ) (last : Option Error) (w : r.World)
      → is_some last ≡ true
      → is_some (collect_all r c m last w).0 ≡ true
  unfolding collect_all
  collect_all-some [] last w h = h
  collect_all-some ((id, n) ∷ m) none w h = cc
  collect_all-some ((id, n) ∷ m) (some e) w h = collect_all-some m _ _ (collect-some id n e w)

  remove_stopped_gone :
      (id : Text) (last : Option Error) (t : Reply (Unit {0}) × r.World)
      → (t.0 ≡ done tt → l.has_pod t.1 id ≡ false)
      → (remove_stopped r c id last t).0 ≡ none
      → l.has_pod (remove_stopped r c id last t).1 id ≡ false
  remove_stopped_gone id last (done _, w) removed h = removed refl
  remove_stopped_gone id last (failed x, w) removed h = cc

  stop_and_remove_gone :
      (id : Text) (last : Option Error) (t : Reply (Unit {0}) × r.World)
      → (stop_and_remove r c id last t).0 ≡ none
      → l.has_pod (stop_and_remove r c id last t).1 id ≡ false
  stop_and_remove_gone id last (failed x, w) h = cc
  stop_and_remove_gone id last (done _, w) h =
      remove_stopped_gone id last (r.remove_pod_sandbox id w) (l.removed_pod id w) h

  ground_positive :
      (id : Text) (n : ℕ) (j : Text) → eqb n 0 ≡ false → at_key j is_positive (id, n) ≡ true
  ground_positive id n j e = ground arith

  -- A round that leaves no error has removed the pod of an entry that is zero.
  collect_gone :
      (id : Text) (n : ℕ) (last : Option Error) (w : r.World) (j : Text)
      → (collect r c (id, n) last w).0 ≡ none
      → at_key j is_positive (id, n) ≡ false
      → l.has_pod (collect r c (id, n) last w).1 j ≡ false
  unfolding collect
  collect_gone id n last w j h z = elim (Bool-cases (eqb n 0)) [
    | inr e ↦ cc (ground_positive id n j e, z)
    | inl e ↦
        let same : id ≡ j = (eq_iff id j).0 (ground arith) in
        rw (e, collect)
          (subst
            (λ k. l.has_pod (stop_and_remove r c id last (r.stop_pod_sandbox id w)).1 k ≡ false)
            same (stop_and_remove_gone id last (r.stop_pod_sandbox id w) (rw (e, collect) at h)))
  ]

  collect_all_gone :
      (m : Map ℕ) (last : Option Error) (w : r.World) (j : Text)
      → (collect_all r c m last w).0 ≡ none
      → (l.has_pod w j ≡ false) ⊎ (all (at_key j is_positive) m ≡ false)
      → l.has_pod (collect_all r c m last w).1 j ≡ false
  unfolding collect_all
  collect_all_gone [] last w j h (inl g) = g
  collect_all_gone [] last w j h (inr g) = cc
  collect_all_gone ((id, n) ∷ m) last w j h g =
      collect_all_gone m _ _ j h (elim (Bool-cases (at_key j is_positive (id, n))) [
        | inr zero_entry ↦ inl (collect_gone id n last w j no_error zero_entry)
        | inl other ↦ rw (has_pod-collect id n last w j other) (rest_of other g)
      ])
    where
      no_error : (collect r c (id, n) last w).0 ≡ none
      no_error = elim (Option-cases (collect r c (id, n) last w).0) [
        | inl e ↦ e
        | inr (x, e) ↦ cc (
          h,
          collect_all-some m (collect r c (id, n) last w).0 (collect r c (id, n) last w).1
              (rw e refl),
        )
      ]

      rest_of :
          at_key j is_positive (id, n) ≡ true
          → (l.has_pod w j ≡ false) ⊎ (all (at_key j is_positive) ((id, n) ∷ m) ≡ false)
          → (l.has_pod w j ≡ false) ⊎ (all (at_key j is_positive) m ≡ false)
      rest_of other (inl e) = inl e
      rest_of other (inr e) = inr (rw other at e)

module _ (r : Runtime) (c : Codec) (l : KeepsPods r) (order : Map ℕ → Map ℕ)
    (o : IsOrder order) where
  module _ (sleep : r.World → r.World) (w : r.World) {ps : List PodSandbox} {xs : List Container}
      (pods : r.list_pod_sandbox [] w ≡ done ps) (containers : r.list_containers [] w ≡ done xs)
      (j : Text) where
    pub run_gc-eq :
        run_gc r c order sleep w
        ≡ last_result r c (
            collect_all r c
              (order (counts r c ps xs w))
              none
              (sleep (scan r c xs (zero_counts ps []) w).1))
    unfolding run_gc
    run_gc-eq = rw (pods, run_gc) (rw containers refl)

    last_result-world :
        (t : Option Error × r.World) → l.has_pod (last_result r c t).1 j ≡ l.has_pod t.1 j
    last_result-world (none, v) = refl
    last_result-world (some e, v) = refl

    last_result-ok : (t : Option Error × r.World) → (last_result r c t).0 ≡ ok tt → t.0 ≡ none
    last_result-ok (none, v) h = refl
    last_result-ok (some e, v) h = cc

    pub entry_test :
        (b : Bool)
        → any (λ p. p.id == j) ps ≡ true
        → is_positive (count r c j xs) ≡ b
        → all (at_key j is_positive) (order (counts r c ps xs w)) ≡ b
    entry_test b listed h =
        o.all-order (at_key j is_positive) (counts r c ps xs w)
        ∙ all-at_key j is_positive (counts r c ps xs w) (counts-NodupKeys r c ps xs w)
        ∙ rw (lookup-counts r c j ps xs w listed) h

    -- Over a runtime that keeps its sandboxes as documented, where pods and containers are listed:
    -- a pod that has a container with readable annotations is still there after a run of the
    -- collector, whether the run fails or not and whatever the order of the map, if nothing else
    -- removes it while the collector sleeps.
    pub run_gc_spares :
        0 < count r c j xs
        → l.has_pod w j ≡ true
        → ((v : r.World) → l.has_pod (sleep v) j ≡ l.has_pod v j)
        → l.has_pod (run_gc r c order sleep w).1 j ≡ true
    run_gc_spares some_left there kept = rw run_gc-eq (
        last_result-world _
        ∙ has_pod-collect_all r c l _ none _ j
            (entry_test true (sym (l.listed w ps j pods) ∙ there) (ground arith))
        ∙ kept _
        ∙ has_pod-scan r c l xs _ w j
        ∙ there)

    -- Over a runtime that keeps its sandboxes as documented, where pods and containers are listed:
    -- when a run of the collector reports no error, every pod that it listed without a container
    -- that can be read is gone, whatever happened while it slept, a container that was created in
    -- that time included.
    pub run_gc_removes :
        any (λ p. p.id == j) ps ≡ true
        → count r c j xs ≡ 0
        → (run_gc r c order sleep w).0 ≡ ok tt
        → l.has_pod (run_gc r c order sleep w).1 j ≡ false
    run_gc_removes listed none_left success = rw run_gc-eq (
        last_result-world _
        ∙ collect_all_gone r c l _ none _ j (last_result-ok _ (rw run_gc-eq at success))
            (inr (entry_test false listed (ground arith))))

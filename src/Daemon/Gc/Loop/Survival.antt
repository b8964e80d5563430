-- ===== src/Daemon/Gc/Loop/Survival.antt =====
-- A container that can be read, and its pod, through the rounds of the collector's loop.
use k3c.Prelude.{
  ℕ, ◌<◌, ◌≡◌, refl, sym, ◌∙◌, Bool, true, false, not, ◌&&◌, ◌||◌, Option, none, some, List, [],
  ◌∷◌, any, all, arith, Bool-cases, Option-cases, inl, inr, ◌⊎◌,
}
use k3c.Prelude.Text.{Text, ◌==◌}
use k3c.Prelude.Maps.{Map}
use k3c.Prelude.Int.{ℤ, pos}
use k3c.Prelude.Results.{Error, Result, ok, err, panic}
use k3c.Cri.{PodSandbox, Container}
use k3c.Kicker.{poll_kicked}
use k3c.Daemon.Runtime.{Runtime, Codec, Reply, done, failed, KeepsPods}
use k3c.Daemon.Gc.{IsOrder, readable, scan, run_gc, last_result}
use k3c.Daemon.Gc.Counts.{belongs, count}
use k3c.Daemon.Gc.Kept.{seen-collect_all}
use k3c.Daemon.Gc.Removal.{run_gc-eq, entry_test, run_gc_spares}
use k3c.Daemon.Gc.Loop.{Round, gc, after_run}

Reply-cases {ℓ} :
    {A : Type ℓ} (m : Reply A) → ((a : A) × (m ≡ done a)) ⊎ ((e : Error) × (m ≡ failed e))
Reply-cases (done a) = inl (a, refl)
Reply-cases (failed e) = inr (e, refl)

-- A list with a container of this id and pod that can be read, and with none of this id that
-- cannot.
abbrev pub shows : (r : Runtime) → Codec → Text → Text → List Container → Bool
shows r c pod id xs =
    any (λ x. belongs r c pod x && x.id == id) xs
    && all (λ x. readable r c x || not (x.id == id)) xs

-- The documented behaviour of the calls on one container: while it is there, listing shows it with
-- the annotations that it was made with, and calls on other containers and on other pods leave it.
pub record KeepsContainer (r : Runtime) (c : Codec) (pod id : Text) : Type 0 where
  pub has : r.World → Bool
  pub listed :
      (w : r.World) (xs : List Container)
      → r.list_containers [] w ≡ done xs
      → has w ≡ true
      → shows r c pod id xs ≡ true
  pub stop_container :
      (i : Text) (t : ℤ) (w : r.World) → (i == id) ≡ false → has (r.stop_container i t w).1 ≡ has w
  pub remove_container :
      (i : Text) (w : r.World) → (i == id) ≡ false → has (r.remove_container i w).1 ≡ has w
  pub stop_pod :
      (p : Text) (w : r.World) → (p == pod) ≡ false → has (r.stop_pod_sandbox p w).1 ≡ has w
  pub remove_pod :
      (p : Text) (w : r.World) → (p == pod) ≡ false → has (r.remove_pod_sandbox p w).1 ≡ has w

module _ (r : Runtime) (c : Codec) (j id : Text) (k : KeepsContainer r c j id) where
  has-scan :
      (xs : List Container) (m : Map ℕ) (w : r.World)
      → all (λ x. readable r c x || not (x.id == id)) xs ≡ true
      → k.has (scan r c xs m w).1 ≡ k.has w
  unfolding scan
  has-scan [] m w h = refl
  has-scan (x ∷ xs) m w h = elim (Bool-cases (readable r c x)) [
    | inl e ↦ rw (e, scan) (has-scan xs _ w (ground arith))
    | inr e ↦
        rw (e, scan)
          (has-scan xs m _ (ground arith)
            ∙ k.remove_container x.id _ (ground arith)
            ∙ k.stop_container x.id (pos 0) w (ground arith))
  ]

  count-any :
      (xs : List Container)
      → any (λ x. belongs r c j x && x.id == id) xs ≡ true
      → 0 < count r c j xs
  count-any [] h = cc
  count-any (x ∷ xs) h = elim (Bool-cases (belongs r c j x)) [
    | inl e ↦ rw e (omega arith)
    | inr e ↦ rw e (count-any xs (ground arith))
  ]

  module _ (l : KeepsPods r) where
    -- The container and its pod are there.
    abbrev pub Alive : r.World → Type 0
    Alive w = (l.has_pod w j ≡ true) × (k.has w ≡ true)

    -- What others do leaves both alone.
    pub record IsQuiet (step : r.World → r.World) : Type 0 where
      pub pod_kept : (v : r.World) → l.has_pod (step v) j ≡ l.has_pod v j
      pub container_kept : (v : r.World) → k.has (step v) ≡ k.has v

    last_result-world : (t : Option Error × r.World) → k.has (last_result r c t).1 ≡ k.has t.1
    last_result-world (none, v) = refl
    last_result-world (some e, v) = refl

    module _ (order : Map ℕ → Map ℕ) (o : IsOrder order) (sleep : r.World → r.World)
        (q : IsQuiet sleep) where
      run_listed-Alive :
          (w : r.World) (ps : List PodSandbox) (xs : List Container)
          → r.list_pod_sandbox [] w ≡ done ps
          → r.list_containers [] w ≡ done xs
          → Alive w
          → Alive (run_gc r c order sleep w).1
      run_listed-Alive w ps xs pods containers (there, a) =
          let shown : shows r c j id xs ≡ true = k.listed w xs containers a in
          let counted : 0 < count r c j xs = count-any xs (ground arith) in
          (
            run_gc_spares r c l order o sleep w pods containers j counted there q.pod_kept,
            rw (run_gc-eq r c l order o sleep w pods containers j) (
                last_result-world _
                ∙ seen-collect_all r c k.has j k.stop_pod k.remove_pod _ none _ (
                    entry_test r c l order o sleep w pods containers j true
                      (sym (l.listed w ps j pods) ∙ there) (ground arith))
                ∙ q.container_kept _
                ∙ has-scan xs _ w (ground arith)
                ∙ a),
          )

      run_gc-Alive : (w : r.World) → Alive w → Alive (run_gc r c order sleep w).1
      unfolding run_gc
      run_gc-Alive w a = elim (Reply-cases (r.list_pod_sandbox [] w)) [
        | inr (e, failing) ↦ rw (failing, run_gc) a
        | inl (ps, pods) ↦ elim (Reply-cases (r.list_containers [] w)) [
          | inr (e, failing) ↦ rw (pods, run_gc) (rw failing a)
          | inl (xs, containers) ↦ run_listed-Alive w ps xs pods containers a
        ]
      ]

    Alive-IsQuiet :
        (step : r.World → r.World) → IsQuiet step → (w : r.World) → Alive w → Alive (step w)
    Alive-IsQuiet step q w (there, a) = (q.pod_kept w ∙ there, q.container_kept w ∙ a)

    -- In each round the loop meets every entry of the map, and others leave the container alone.
    abbrev pub AreQuiet : List (Round r.World) → Type 0
    AreQuiet [] = Unit {0}
    AreQuiet (x ∷ rounds) = IsOrder x.order × IsQuiet x.sleep × IsQuiet x.rest × AreQuiet rounds

    after_run-Alive :
        (rest : r.World → r.World) (q : IsQuiet rest) (t : Result (Unit {0}) × r.World)
        → Alive t.1
        → Alive (after_run r c rest t)
    after_run-Alive rest q (ok _, w) a = a
    after_run-Alive rest q (err e, w) a = Alive-IsQuiet rest q w a
    after_run-Alive rest q (panic, w) a = a

    -- A container that can be read, and the pod that it is in, are never collected: over a runtime
    -- that keeps both as documented, they are still there after any number of rounds of the loop,
    -- whether listing and removing succeed or not and whatever the order of the map, where nothing
    -- else removes them while the collector sleeps.
    pub gc-Alive :
        (rounds : List (Round r.World)) (w : r.World)
        → AreQuiet rounds
        → Alive w
        → Alive (gc r c rounds w).1
    unfolding gc
    gc-Alive [] w q a = a
    gc-Alive (x ∷ rounds) w (o, sleep, rest, q) a = elim (Option-cases (poll_kicked x.kicker)) [
      | inl e ↦ rw (gc, e) a
      | inr (more, e) ↦ elim (Bool-cases more) [
        | inr f ↦ rw (gc, e) (rw f a)
        | inl f ↦
            rw (gc, e)
              (rw f (
                gc-Alive rounds _ q
                  (after_run-Alive x.rest rest _ (run_gc-Alive x.order o x.sleep sleep w a))))
      ]
    ]

-- ===== src/Commands/Containers/Loops.antt =====
-- The loops of the commands over their arguments.
use k3c.Prelude.{
  ◌≡◌, refl, ap, ◌∙◌, some, not, Bool, Bool-cases, inl, inr, true, false, ◌&&◌, List, [], ◌∷◌,
  if◌then◌else◌,
}
use k3c.Prelude.Text.{Text}
use k3c.Prelude.Int.{ℤ, pos}
use k3c.Prelude.Results.{Result, ok, err, panic, Exec, and_then}
use k3c.Remote.Interface.{Client}
use k3c.Commands.Rmi
use k3c.Commands.Rmi.{remove_images}
use k3c.Commands.Containers.{
  Report, noted, noted_error, remove_one, rm, volume_rm, stop, start_all, start, run_attach,
  exit_of, exit_1,
}

-- An operation on each of some names, one after the other and whatever fails.
abbrev pub each :
    {W : Type 0} → (Text → Exec W (Unit {0})) → List Text → W → List (Result (Unit {0})) × W
each f [] w = ([], w)
each f (name ∷ names) w =
    ((f name w).0 ∷ (each f names (f name w).1).0, (each f names (f name w).1).1)

abbrev pub is_ok : Result (Unit {0}) → Bool
is_ok (ok _) = true
is_ok (err e) = false
is_ok panic = false

abbrev pub all_ok : List (Result (Unit {0})) → Bool
all_ok [] = true
all_ok (r ∷ rs) = is_ok r && all_ok rs

-- A loop does so, and tells whether all went well.
abbrev pub DoesEach :
    {W : Type 0} → (Text → Exec W (Unit {0})) → (List Text → W → Bool × W) → Type 0
DoesEach {W} f loop =
    (names : List Text) (w : W) → loop names w ≡ (all_ok (each f names w).0, (each f names w).1)

abbrev pub told : {W : Type 0} → Report × W → Bool × W
told (r, w) = (r.success, w)

noted-success :
    (name : Text) (r : Result (Unit {0})) (rest : Report)
    → (noted name r rest).success ≡ (is_ok r && rest.success)
noted-success name (ok _) rest = refl
noted-success name (err e) rest = refl
noted-success name panic rest = refl

noted_error-success :
    (name : Text) (r : Result (Unit {0})) (rest : Report)
    → (noted_error name r rest).success ≡ (is_ok r && rest.success)
noted_error-success name (ok _) rest = refl
noted_error-success name (err e) rest = refl
noted_error-success name panic rest = refl

module _ {W : Type 0} where
  told-noted :
      (name : Text) (r : Result (Unit {0})) (rest : Report × W) {next : Bool × W}
      → told rest ≡ next
      → told (noted name r rest.0, rest.1) ≡ (is_ok r && next.0, next.1)
  told-noted name r rest e =
      rw (noted-success name r rest.0) (ap (λ (y : Bool × W). (is_ok r && y.0, y.1)) e)

  told-noted_error :
      (name : Text) (r : Result (Unit {0})) (rest : Report × W) {next : Bool × W}
      → told rest ≡ next
      → told (noted_error name r rest.0, rest.1) ≡ (is_ok r && next.0, next.1)
  told-noted_error name r rest e =
      rw (noted_error-success name r rest.0) (ap (λ (y : Bool × W). (is_ok r && y.0, y.1)) e)

module _ {W : Type 0} (cl : Client W) where
  rm-each : (force : Bool) → DoesEach (remove_one cl force) (λ names w. told (rm cl force names w))
  unfolding rm
  rm-each force [] w = refl
  rm-each force (name ∷ names) w =
      let (r, w1) = remove_one cl force name w in
      told-noted name r (rm cl force names w1) (rm-each force names w1)

  volume_rm-each :
      (force : Bool)
      → DoesEach
          (λ name. cl.remove_volume name force)
          (λ names w. told (volume_rm cl force names w))
  unfolding volume_rm
  volume_rm-each force [] w = refl
  volume_rm-each force (name ∷ names) w =
      let (r, w1) = cl.remove_volume name force w in
      told-noted name r (volume_rm cl force names w1) (volume_rm-each force names w1)

  stop-each :
      (time : ℤ) → DoesEach (λ id. cl.stop_container id time) (λ ids w. told (stop cl time ids w))
  unfolding stop
  stop-each time [] w = refl
  stop-each time (id ∷ ids) w =
      let (r, w1) = cl.stop_container id time w in
      told-noted_error id r (stop cl time ids w1) (stop-each time ids w1)

  start_all-each : DoesEach cl.start_container (λ ids w. told (start_all cl ids w))
  unfolding start_all
  start_all-each [] w = refl
  start_all-each (id ∷ ids) w =
      let (r, w1) = cl.start_container id w in
      told-noted_error id r (start_all cl ids w1) (start_all-each ids w1)

  remove_images-each : DoesEach (Rmi.remove_image cl) (remove_images cl)
  unfolding remove_images
  remove_images-each [] w = refl
  remove_images-each (name ∷ names) w =
      let (r, w1) = Rmi.remove_image cl name w in
      ap (λ (y : Bool × W). (is_ok r && y.0, y.1)) (remove_images-each names w1)

  -- What `start` does after its loop: with -a it attaches to the first container, if there is one.
  abbrev pub after_starts :
      (Bool → Bool → Text → Result (Unit {0})) → Bool → Bool → List Text → Exec W (Unit {0})
  after_starts stream false interactive ids w = (ok tt, w)
  after_starts stream true interactive [] w = (ok tt, w)
  after_starts stream true interactive (id ∷ ids) w =
      run_attach cl stream id (some (record { no_stdin = not interactive })) w

  by_success :
      (report : Report) (next : Exec W (Unit {0})) (w : W)
      → and_then (exit_of report, w) (λ _ v. next v)
        ≡ (if report.success then next w else (err exit_1, w))
  by_success report next w = elim (Bool-cases report.success) [
    | inl e ↦ rw e refl
    | inr e ↦ rw e refl
  ]

  start-each :
      (stream : Bool → Bool → Text → Result (Unit {0})) (attach interactive : Bool)
      (ids : List Text) (w : W)
      → start cl stream attach interactive ids w ≡ (
          let (results, w1) = each cl.start_container ids w in
          if all_ok results
          then after_starts stream attach interactive ids w1
          else (err exit_1, w1))
  unfolding start
  start-each stream attach interactive ids w =
      let next = after_starts stream attach interactive ids in
      by_success (start_all cl ids w).0 next (start_all cl ids w).1
      ∙ ap (λ (y : Bool × W). if y.0 then next y.1 else (err exit_1, y.1)) (start_all-each ids w)

  -- `rm`, `volume rm`, `stop`, `start` and `rmi` go through their arguments in order and try each one
  -- whatever became of those before it. All but `start` with `-a` succeed exactly where all did;
  -- with `-a`, where all did, `start` ends as attaching to the first container ends, if there is
  -- one. With `-f`, `rm` stops a container before it removes it and ignores an error of that.
  pub loops-each :
      (force : Bool) (time : ℤ) (stream : Bool → Bool → Text → Result (Unit {0}))
      → DoesEach
          (λ name w.
            cl.remove_container name (if force then (cl.stop_container name (pos 0) w).1 else w))
          (λ names w. told (rm cl force names w))
        × DoesEach
            (λ name. cl.remove_volume name force)
            (λ names w. told (volume_rm cl force names w))
        × DoesEach (λ id. cl.stop_container id time) (λ ids w. told (stop cl time ids w))
        × ((attach interactive : Bool) (ids : List Text) (w : W)
            → start cl stream attach interactive ids w ≡ (
                let (results, w1) = each cl.start_container ids w in
                if all_ok results
                then after_starts stream attach interactive ids w1
                else (err exit_1, w1)))
        × DoesEach (Rmi.remove_image cl) (remove_images cl)
  loops-each force time stream =
      (rm-each force, volume_rm-each force, stop-each time, start-each stream, remove_images-each)

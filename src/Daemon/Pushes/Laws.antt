-- ===== src/Daemon/Pushes/Laws.antt =====
-- What the table of running pushes holds during a push and after it.
use k3c.Prelude.{
  ℕ, ◌≡◌, refl, ap, ◌∙◌, Bool, true, false, not, ◌||◌, ◌++◌, all, Option, none, some, List, [], ◌∷◌,
  map, any, eqb, arith, Bool-cases, inl, inr, if◌then◌else◌,
}
use k3c.Prelude.Text.{Text, ◌==◌, eq_refl}
use k3c.Prelude.Maps.{Map, lookup, insert, delete, lookup-insert, lookup-delete}
use k3c.Prelude.Results.{Result, ok, err, panic}
use k3c.PushStatus.{Tracker, new_push_jobs, add, job_info, status}
use k3c.PushStatus.Laws.{first_occurrences, add_all, status-add_all}
use k3c.Daemon.Runtime.{Reply}
use k3c.Daemon.Images.{ImageServices, AuthConfig, to_auth, StoredImage, resolve_image}
use k3c.Daemon.Pushes.{
  Pushes, Action, begins, adds, ends, apply, run, updated, adds_of, pushed, push_resolved,
  push_image, push_progress, tracker_status,
}

-- Whether an action changes the entry of an image, or makes a tracker of this number.
abbrev pub disturbs : ℕ → Text → Action → Bool
disturbs n image (begins m other) = eqb m n || other == image
disturbs n image (adds m ref) = false
disturbs n image (ends m other) = other == image

abbrev pub added_by : ℕ → List Action → List Text
added_by n [] = []
added_by n (adds m ref ∷ acts) = if eqb m n then ref ∷ added_by n acts else added_by n acts
added_by n (begins m image ∷ acts) = added_by n acts
added_by n (ends m image ∷ acts) = added_by n acts

tracker_added :
    (m n : ℕ) (ref : Text) (s : Pushes) (acts : List Action)
    → add_all (updated m (add ref (s.trackers m)) s.trackers n) (added_by n acts)
      ≡ add_all (s.trackers n) (added_by n (adds m ref ∷ acts))
tracker_added m n ref s acts = elim (Bool-cases (eqb m n)) [
  | inr h ↦ rw h refl
  | inl h ↦
      let same : m ≡ n = ground arith in
      rw h (ap (λ k. add_all (add ref (s.trackers k)) (added_by n acts)) same)
]

-- The entry and the tracker of a push after actions that do not disturb it.
run-undisturbed :
    (n : ℕ) (image : Text) (acts : List Action) (s : Pushes)
    → any (disturbs n image) acts ≡ false
    → (lookup image (run acts s).jobs ≡ lookup image s.jobs)
      × ((run acts s).trackers n ≡ add_all (s.trackers n) (added_by n acts))
unfolding run apply
run-undisturbed n image [] s h = (refl, refl)
run-undisturbed n image (begins m other ∷ acts) s h =
    let (entry, tracker) = run-undisturbed n image acts (apply (begins m other) s) (ground arith) in
    (
      entry ∙ ground (arith, lookup-insert image other m s.jobs),
      tracker ∙ ap (λ t. add_all t (added_by n acts)) (ground arith),
    )
run-undisturbed n image (ends m other ∷ acts) s h =
    let (entry, tracker) = run-undisturbed n image acts (apply (ends m other) s) (ground arith) in
    (entry ∙ ground (arith, lookup-delete image other s.jobs), tracker)
run-undisturbed n image (adds m ref ∷ acts) s h =
    let (entry, tracker) = run-undisturbed n image acts (apply (adds m ref) s) h in
    (entry, tracker ∙ tracker_added m n ref s acts)

progress_first :
    (n : ℕ) (image : Text) (now : Pushes) (later : List Pushes)
    → lookup image now.jobs ≡ some n
    → push_progress image (now ∷ later) ≡ some n
unfolding push_progress
progress_first n image now later h = rw (h, push_progress) refl

-- While a push runs, PushProgress finds it at its first look, and its ticker reports one entry for
-- each distinct ref that the handler of this push was called with so far, in order of first arrival:
-- whatever other pushes did since it began, as long as none of them began or ended under the same
-- image.
pub push_progress_lem :
    (t : Tracker) (n : ℕ) (image : Text) (acts : List Action) (s : Pushes) (later : List Pushes)
    → any (disturbs n image) acts ≡ false
    → let now = run (begins n image ∷ acts) s in
      (push_progress image (now ∷ later) ≡ some n)
      × (tracker_status t n now
          ≡ map (λ ref. job_info ref (t ref)) (first_occurrences (added_by n acts)))
unfolding run apply
push_progress_lem t n image acts s later h =
    let (entry, tracker) = run-undisturbed n image acts (apply (begins n image) s) h in
    let found : lookup image (run acts (apply (begins n image) s)).jobs ≡ some n =
      entry ∙ lookup-insert image image n s.jobs ∙ rw (eq_refl image) refl in
    let fresh : (apply (begins n image) s).trackers n ≡ new_push_jobs = ground arith in
    (
      progress_first n image (run acts (apply (begins n image) s)) later found,
      ap (status t) (tracker ∙ ap (λ j. add_all j (added_by n acts)) fresh)
          ∙ status-add_all t (added_by n acts),
    )

-- Whether an action is the start of a push of an image.
abbrev pub starts : Text → Action → Bool
starts image (begins n other) = other == image
starts image (adds n ref) = false
starts image (ends n other) = false

run-append :
    (before after : List Action) (s : Pushes) → run (before ++ after) s ≡ run after (run before s)
unfolding run
run-append [] after s = refl
run-append (a ∷ before) after s = run-append before after (apply a s)

stays_absent :
    (image : Text) (acts : List Action) (s : Pushes)
    → any (starts image) acts ≡ false
    → lookup image s.jobs ≡ none
    → lookup image (run acts s).jobs ≡ none
unfolding run apply
stays_absent image [] s h e = e
stays_absent image (begins n other ∷ acts) s h e =
    stays_absent image acts (apply (begins n other) s) (ground arith)
      (ground (arith, lookup-insert image other n s.jobs))
stays_absent image (adds n ref ∷ acts) s h e = stays_absent image acts (apply (adds n ref) s) h e
stays_absent image (ends n other ∷ acts) s h e =
    stays_absent image acts (apply (ends n other) s) h
      (ground (arith, lookup-delete image other s.jobs))

ended_absent :
    (image : Text) (n : ℕ) (before after : List Action) (s : Pushes)
    → any (starts image) after ≡ false
    → lookup image (run (before ++ ends n image ∷ after) s).jobs ≡ none
unfolding run apply
ended_absent image n before after s h =
    ap (λ (v : Pushes). lookup image v.jobs) (run-append before (ends n image ∷ after) s)
    ∙ stays_absent image after (apply (ends n image) (run before s)) h
        (lookup-delete image image (run before s).jobs ∙ rw (eq_refl image) refl)

-- Pushes of one image share one entry: once any push of an image has ended, whichever it was and
-- however many others of the same image still run, PushProgress finds none of them, at no look until
-- another push of this image begins.
pub push_progress-shared :
    (image : Text) (n : ℕ) (before : List Action) (looks : List (List Action)) (s : Pushes)
    → all (λ acts. not (any (starts image) acts)) looks ≡ true
    → push_progress image (map (λ acts. run (before ++ ends n image ∷ acts) s) looks) ≡ none
unfolding push_progress
push_progress-shared image n before [] s h = refl
push_progress-shared image n before (acts ∷ looks) s h =
    rw (ended_absent image n before acts s (ground arith), push_progress)
      (push_progress-shared image n before looks s (ground arith))

module _ (v : ImageServices) where
  run-adds_of : (n : ℕ) (refs : List Text) (s : Pushes) → (run (adds_of n refs) s).jobs ≡ s.jobs
  unfolding run apply
  run-adds_of n [] s = refl
  run-adds_of n (ref ∷ refs) s = run-adds_of n refs (apply (adds n ref) s)

  pushed-lookup :
      (n : ℕ) (image j : Text) (s : Pushes) (x : (Reply (Unit {0}) × List Text) × v.World)
      → lookup j (pushed v n image s x).1.0.jobs ≡ lookup j (delete image s.jobs)
  unfolding run apply
  pushed-lookup n image j s ((reply, refs), w) =
      ap (λ (m : Map ℕ). lookup j (delete image m)) (run-adds_of n refs s)

  resolved-lookup :
      (n : ℕ) (image j : Text) (auth : Option AuthConfig) (i : Result StoredImage) (s : Pushes)
      (w : v.World)
      → lookup j (push_resolved v n image auth i (s, w)).1.0.jobs ≡ lookup j (delete image s.jobs)
  unfolding run apply
  resolved-lookup n image j auth (ok i) s w = pushed-lookup n image j s (v.push i (to_auth auth) w)
  resolved-lookup n image j auth (err e) s w = refl
  resolved-lookup n image j auth panic s w = refl

  -- After PushImage, however it ends, its image has no entry in the table of pushes, and every other
  -- image has the entry that it had.
  pub push_image_lem :
      (n : ℕ) (image j : Text) (auth : Option AuthConfig) (s : Pushes) (w : v.World)
      → lookup j (push_image v n image auth (s, w)).1.0.jobs
        ≡ (if image == j then none else lookup j s.jobs)
  unfolding push_image apply
  push_image_lem n image j auth s w =
      resolved-lookup n image j auth (resolve_image v image w) (apply (begins n image) s) w
      ∙ ground
          (arith, lookup-delete j image (insert image n s.jobs), lookup-insert j image n s.jobs)

-- ===== src/Commands/Build/Cleanup.antt =====
-- The temporary directory of cmd/build, and when it is left behind.
use k3c.Prelude.{
  ◌≡◌, refl, sym, ap, subst, ◌∙◌, Bool, true, false, not, ◌&&◌, Option, none, some, List, ◌∷◌,
  Bool-cases, inl, inr, ◌⊎◌,
}
use k3c.Prelude.Text.{Text, codes, ◌==◌}
use k3c.Prelude.Maps.{Map}
use k3c.Prelude.Results.{Result, ok, err, panic, and_then, ◌>>=◌}
use k3c.Paths.{join}
use k3c.Build.{Opts}
use k3c.Commands.Images.{n_args, first_arg}
use k3c.Commands.Build.{
  Flags, System, Content, to_opts, kept_in, read_stdin_content, clean_up, deferred, build_from,
  connected, run,
}

abbrev pub succeeded {ℓ} : {A : Type ℓ} → Result A → Bool
succeeded (ok a) = true
succeeded (err e) = false
succeeded panic = false

-- TempDir adds the directory that it answers with.
abbrev pub with_made : Result Text → List Text → List Text
with_made (ok dir) dirs = dir ∷ dirs
with_made (err e) dirs = dirs
with_made panic dirs = dirs

abbrev with_cleanup : Option Text → List Text → List Text
with_cleanup none dirs = dirs
with_cleanup (some dir) dirs = dir ∷ dirs

-- Which temporary directories there are: TempDir makes one, RemoveAll removes it where it succeeds
-- and may leave it where it fails, and nothing else makes or removes one.
pub record KeepsTemps {W : Type 0} (s : System W) (temps : W → List Text) : Type 0 where
  pub read_stdin : (w : W) → temps (s.read_stdin w).1 ≡ temps w
  pub temp_dir :
      (prefix : Text) (w : W)
      → temps (s.temp_dir prefix w).1 ≡ with_made (s.temp_dir prefix w).0 (temps w)
  pub write_file : (path bytes : Text) (w : W) → temps (s.write_file path bytes w).1 ≡ temps w
  pub remove_all :
      (dir : Text) (dirs : List Text) (w : W)
      → temps w ≡ dir ∷ dirs
      → (temps (s.remove_all dir w).1 ≡ dirs)
        ⊎ ((temps (s.remove_all dir w).1 ≡ dir ∷ dirs) × (succeeded (s.remove_all dir w).0 ≡ false))
  pub connect : (w : W) → temps (s.connect w).1 ≡ temps w
  pub disconnect : (w : W) → temps (s.disconnect w).1 ≡ temps w
  pub build : (dir : Text) (o : Opts) (w : W) → temps (s.build dir o w).1 ≡ temps w

module _ {W : Type 0} (s : System W) (temps : W → List Text) where
  -- Why a directory may be left by an operation that ends in a world: the world is what `last` makes
  -- of the one after a WriteFile into the directory that failed, and then the operation fails; or of
  -- the one after a RemoveAll of it that failed.
  abbrev pub IsLeft : (W → W) → Text → Bool × W → Type 0
  IsLeft last dir (success, v) =
      (w : W) × (((bytes : Text) × (succeeded
              (s.write_file (join dir (codes "Dockerfile")) bytes w).0
            ≡ false)
          × (v ≡ last (s.write_file (join dir (codes "Dockerfile")) bytes w).1)
          × (success ≡ false))
        ⊎ ((succeeded (s.remove_all dir w).0 ≡ false) × (v ≡ last (s.remove_all dir w).1)))

  -- What an operation leaves: the directories that there were, or one more for such a reason.
  abbrev pub Cleaned {ℓ} : {A : Type ℓ} → (W → W) → List Text → Result A × W → Type 0
  Cleaned last dirs t =
      (temps t.1 ≡ dirs)
      ⊎ ((dir : Text) × (temps t.1 ≡ dir ∷ dirs) × IsLeft last dir (succeeded t.0, t.1))

  abbrev itself : W → W
  itself w = w

  -- The connection is closed last.
  abbrev pub disconnected : W → W
  disconnected w = (s.disconnect w).1

  abbrev AfterRead : List Text → Result Content × W → Type 0
  AfterRead dirs (ok c, w) = temps w ≡ with_cleanup c.cleanup dirs
  AfterRead dirs (err e, w) = Cleaned {A = Text} itself dirs (err e, w)
  AfterRead dirs (panic, w) = Cleaned {A = Text} itself dirs (panic, w)

  module _ (k : KeepsTemps s temps) where
    written :
        (dirs : List Text) (context_dir dir bytes : Text) (v : W) (t : Result (Unit {0}) × W)
        → s.write_file (join dir (codes "Dockerfile")) bytes v ≡ t
        → temps t.1 ≡ dir ∷ dirs
        → AfterRead dirs (and_then t (λ _ w. (ok (kept_in s context_dir dir), w)))
    written dirs context_dir dir bytes v (ok _, w) e h = h
    written dirs context_dir dir bytes v (err x, w) e h =
        inr (dir, h, (v, inl (bytes, rw e refl, ap (λ y. y.1) (sym e), refl)))
    written dirs context_dir dir bytes v (panic, w) e h =
        inr (dir, h, (v, inl (bytes, rw e refl, ap (λ y. y.1) (sym e), refl)))

    made :
        (dirs : List Text) (context_dir bytes : Text) (t : Result Text × W)
        → temps t.1 ≡ with_made t.0 dirs
        → AfterRead dirs (
            and_then t (λ dir w2.
              and_then
                (s.write_file (join dir (codes "Dockerfile")) bytes w2)
                (λ _ w3. (ok (kept_in s context_dir dir), w3))))
    made dirs context_dir bytes (ok dir, w) h =
        let path = join dir (codes "Dockerfile") in
        written dirs context_dir dir bytes w (s.write_file path bytes w) refl
          (k.write_file path bytes w ∙ h)
    made dirs context_dir bytes (err x, w) h = inl h
    made dirs context_dir bytes (panic, w) h = inl h

    stdin_read :
        (dirs : List Text) (context_dir : Text) (t : Result Text × W)
        → temps t.1 ≡ dirs
        → AfterRead dirs (
            and_then t (λ bytes w1. and_then (s.temp_dir (codes "k3c-build") w1) (λ dir w2.
              and_then
                (s.write_file (join dir (codes "Dockerfile")) bytes w2)
                (λ _ w3. (ok (kept_in s context_dir dir), w3)))))
    stdin_read dirs context_dir (ok bytes, w) h =
        made dirs context_dir bytes (s.temp_dir (codes "k3c-build") w) (rw (k.temp_dir, h) refl)
    stdin_read dirs context_dir (err x, w) h = inl h
    stdin_read dirs context_dir (panic, w) h = inl h

    read_stdin_content-AfterRead :
        (dockerfile context_dir : Text) (w : W)
        → AfterRead (temps w) (read_stdin_content s dockerfile context_dir w)
    unfolding read_stdin_content
    read_stdin_content-AfterRead dockerfile context_dir w =
        elim (Bool-cases (not (dockerfile == codes "-") && not (context_dir == codes "-"))) [
          | inl e ↦ rw (e, read_stdin_content) refl
          | inr e ↦
              rw (e, read_stdin_content)
                (stdin_read (temps w) context_dir (s.read_stdin w) (k.read_stdin w))
        ]

    clean_up-Cleaned {ℓ} :
        {A : Type ℓ} (c : Option Text) (dirs : List Text) (t : Result A × W)
        → temps t.1 ≡ with_cleanup c dirs
        → Cleaned itself dirs (deferred s (clean_up s c) t)
    unfolding clean_up
    clean_up-Cleaned none dirs t h = inl h
    clean_up-Cleaned (some dir) dirs t h = elim (k.remove_all dir dirs t.1 h) [
      | inl removed ↦ inl removed
      | inr (left, failed) ↦ inr (dir, left, (t.1, inr (failed, refl)))
    ]

    build_from-Cleaned :
        (o : Opts) (dirs : List Text) (t : Result Content × W)
        → AfterRead dirs t
        → Cleaned itself dirs (build_from s o t)
    build_from-Cleaned o dirs (ok c, w) h =
        clean_up-Cleaned c.cleanup dirs
          (s.build c.context_dir (record o { dockerfile = c.dockerfile }) w) (k.build _ _ w ∙ h)
    build_from-Cleaned o dirs (err e, w) h = h
    build_from-Cleaned o dirs (panic, w) h = h

    deferred-Cleaned {ℓ} :
        {A : Type ℓ} (dirs : List Text) (t : Result A × W)
        → Cleaned itself dirs t
        → Cleaned disconnected dirs (deferred s s.disconnect t)
    deferred-Cleaned dirs t (inl h) = inl (k.disconnect t.1 ∙ h)
    deferred-Cleaned dirs t (inr (dir, h, (w, inl (bytes, failed, same, e)))) =
        inr (
          dir,
          k.disconnect t.1 ∙ h,
          (w, inl (bytes, failed, ap (λ v. (s.disconnect v).1) same, e)),
        )
    deferred-Cleaned dirs t (inr (dir, h, (w, inr (failed, same)))) =
        inr (dir, k.disconnect t.1 ∙ h, (w, inr (failed, ap (λ v. (s.disconnect v).1) same)))

    connected-Cleaned :
        (args : List Text) (o : Opts) (w : W)
        → Cleaned disconnected (temps w) (connected s args o w)
    connected-Cleaned args o w = deferred-Cleaned (temps w) _ (
        build_from-Cleaned o (temps w) _
          (read_stdin_content-AfterRead o.dockerfile (first_arg args) w))

    opened :
        (dirs : List Text) (args : List Text) (o : Opts) (t : Result (Unit {0}) × W)
        → temps t.1 ≡ dirs
        → Cleaned disconnected dirs (and_then t (λ _ w. connected s args o w))
    opened dirs args o (ok _, w) h =
        subst (λ d. Cleaned disconnected d (connected s args o w)) h (connected-Cleaned args o w)
    opened dirs args o (err x, w) h = inl h
    opened dirs args o (panic, w) h = inl h

    checked :
        (args : List Text) (m : Result Opts) (w : W)
        → Cleaned disconnected
            (temps w)
            (and_then (m, w) (λ o w1. and_then (s.connect w1) (λ _ w2. connected s args o w2)))
    checked args (ok o) w = opened (temps w) args o (s.connect w) (k.connect w)
    checked args (err x) w = inl refl
    checked args panic w = inl refl

    -- Where temporary directories come only from TempDir and go only by RemoveAll: however `build`
    -- ends, the temporary directories are those that there were, but that one may be left: where all
    -- that came after a WriteFile into it that failed was to close the connection, and then `build`
    -- fails; or where so it was after a RemoveAll of it that failed, whether `build` fails or not.
    pub run-Cleaned :
        (read_kv_map : List Text → Result (Map Text)) (b : Flags) (args : List Text) (w : W)
        → Cleaned disconnected (temps w) (run s read_kv_map b args w)
    unfolding run
    run-Cleaned read_kv_map b args w =
        checked args (n_args (codes "build") 1 (some 1) args >>= λ _. to_opts read_kv_map b) w

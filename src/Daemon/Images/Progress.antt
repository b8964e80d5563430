-- ===== src/Daemon/Images/Progress.antt =====
-- What a pull reports, tick after tick.
use k3c.Prelude.{◌≡◌, refl, ap, true, false, some, List, [], ◌∷◌, ◌++◌, map}
use k3c.Prelude.Text.{Text}
use k3c.Prelude.Results.{ok}
use k3c.Daemon.Runtime.{done}
use k3c.Daemon.Images.{
  ImageServices, ContentStatus, content_info, image_pulled, image_progress, pull_stream,
  pull_progress,
}

module _ (v : ImageServices) (image : Text) where
  -- The image is not there at any of these ticks, and the content store lists these statuses.
  abbrev pub Waits : List v.World → List (List ContentStatus) → Type 0
  Waits [] [] = Unit
  Waits (w ∷ ws) (ss ∷ rest) =
      (image_pulled v image w ≡ ok false) × (v.statuses w ≡ done ss) × Waits ws rest
  Waits _ _ = ⊥

  pull_stream-Waits :
      (before : List v.World) (w : v.World) (later : List v.World)
      (seen : List (List ContentStatus))
      → Waits before seen
      → image_pulled v image w ≡ ok true
      → pull_stream v image (before ++ w ∷ later) ≡ map (map content_info) seen ++ [] ∷ []
  unfolding pull_stream image_progress
  pull_stream-Waits [] w later [] h there = rw there refl
  pull_stream-Waits (u ∷ before) w later (ss ∷ seen) h there =
      rw (h.0, h.1) (rw (pull_stream-Waits before w later seen h.2 there) refl)
  pull_stream-Waits [] w later (ss ∷ seen) h there = absurd h
  pull_stream-Waits (u ∷ before) w later [] h there = absurd h

  -- A pull of an image that is not there yet: as long as it is missing, each tick reports what the
  -- content store lists; at the first tick that finds it, an empty report is sent and the channel
  -- closes, whatever would come later.
  pub pull_progress_lem :
      (start : v.World) (before : List v.World) (w : v.World) (later : List v.World)
      (seen : List (List ContentStatus))
      → image_pulled v image start ≡ ok false
      → Waits before seen
      → image_pulled v image w ≡ ok true
      → pull_progress v image start (before ++ w ∷ later)
        ≡ ok (some (map (map content_info) seen ++ [] ∷ []))
  unfolding pull_progress
  pull_progress_lem start before w later seen missing h there =
      rw missing (ap (λ x. ok (some x)) (pull_stream-Waits before w later seen h there))

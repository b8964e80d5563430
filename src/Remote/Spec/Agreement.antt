-- ===== src/Remote/Spec/Agreement.antt =====
-- Programs over the client and over the daemon that have the same effect: they end in the same state of
-- the daemon, and with the same value or each with an error of its own.
use k3c.Prelude.{◌≡◌, refl, sym, subst, Bool, true, false, Option, none, some}
use k3c.Prelude.Results.{
  Error, Result, ok, err, panic, Exec, and_then, container_not_found, image_not_found,
}
use k3c.Remote.Gate.{Served}
use k3c.Remote.Calls.{Link}
use k3c.Remote.Spec.{delivered, through}

abbrev pub up : {W : Type 0} → W → Served W
up w = record { initialized = true; daemon = w }

abbrev pub value_of : {A : Type 0} → Result A → Option A
value_of (ok a) = some a
value_of (err e) = none
value_of panic = none

-- A run on a ready server, and one at the daemon.
abbrev pub Agrees : {A W : Type 0} → Result A × Served W → Result A × W → Type 0
Agrees x y = (value_of x.0 ≡ value_of y.0) × (x.1 ≡ up y.1)

-- The two errors that the program compares others with.
abbrev pub is_sentinel : Error → Bool
is_sentinel container_not_found = true
is_sentinel image_not_found = true
is_sentinel _ = false

-- What gRPC gives for an error is an error of its own.
abbrev pub CarriesStatus : Link → Type 0
CarriesStatus l = ((e : Error) → is_sentinel (l.carried e) ≡ false) × (is_sentinel l.lost ≡ false)

module _ {A B W : Type 0} where
  pub Agrees-and_then :
      (x : Result A × Served W) (y : Result A × W) (f : A → Served W → Result B × Served W)
      (g : A → W → Result B × W)
      → Agrees x y
      → ((a : A) (w : W) → y ≡ (ok a, w) → Agrees (f a (up w)) (g a w))
      → Agrees (and_then x f) (and_then y g)
  Agrees-and_then (ok a, s) (ok b, w) f g (e, same) h =
      let equal : a ≡ b = cc e in
      subst (λ s'. Agrees (f a s') (g b w)) (sym same)
        (subst (λ a'. Agrees (f a' (up w)) (g b w)) (sym equal) (h b w refl))
  Agrees-and_then (ok a, s) (err e', w) f g (e, same) h = cc
  Agrees-and_then (ok a, s) (panic, w) f g (e, same) h = cc
  Agrees-and_then (err e', s) (ok b, w) f g (e, same) h = cc
  Agrees-and_then (panic, s) (ok b, w) f g (e, same) h = cc
  Agrees-and_then (err e', s) (err e'', w) f g (e, same) h = (refl, same)
  Agrees-and_then (err e', s) (panic, w) f g (e, same) h = (refl, same)
  Agrees-and_then (panic, s) (err e'', w) f g (e, same) h = (refl, same)
  Agrees-and_then (panic, s) (panic, w) f g (e, same) h = (refl, same)

module _ {A : Type 0} (l : Link) where
  pub value_of-delivered : (r : Result A) → value_of (delivered l r) ≡ value_of r
  value_of-delivered (ok a) = refl
  value_of-delivered (err e) = refl
  value_of-delivered panic = refl

  pub through-Agrees :
      {W : Type 0} (direct : Exec W A) (w : W) → Agrees (through l direct (up w)) (direct w)
  through-Agrees direct w = (value_of-delivered (direct w).0, refl)

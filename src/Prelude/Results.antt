-- ===== src/Prelude/Results.antt =====
-- What a Go function returns, and operations that act on the world.

use mathlib.Core.Path.{◌≡◌, refl}
use mathlib.Core.Option.{Option, none, some}
use mathlib.Core.Bool.{Bool, true, false}
use mathlib.Core.List.{List, [], ◌∷◌}
use k3c.Prelude.Text.{Text}

-- The errors that the program tells apart. `other` is the error of a library or a service.
pub data Error : Type 0 where
  container_not_found : Error
  image_not_found : Error
  wrapped : Text → Error → Error
  message : Text → Error
  other : Text → Error

-- `panic` is a run-time panic, such as the use of a nil pointer.
pub data Result {ℓ} (A : Type ℓ) : Type ℓ where
  ok : A → Result A
  err : Error → Result A
  panic : Result A

module _ {ℓ κ} {A : Type ℓ} {B : Type κ} where
  infixl 5 ◌>>=◌
  -- What follows a call, where the code returns at once on an error.
  abbrev pub ◌>>=◌ : Result A → (A → Result B) → Result B
  panic >>= next = panic
  err reason >>= next = err reason
  ok value >>= next = next value

  -- A chain that succeeds went through a value of its first call.
  pub >>=-eq-ok :
      (call : Result A) (next : A → Result B) {final : B}
      → (call >>= next) ≡ ok final
      → (value : A) × (call ≡ ok value) × (next value ≡ ok final)
  >>=-eq-ok panic next e = cc
  >>=-eq-ok (err reason) next e = cc
  >>=-eq-ok (ok value) next e = (value, refl, e)

-- errors.Wrap
abbrev pub wrap {ℓ} : {A : Type ℓ} → Text → Result A → Result A
wrap t (ok a) = ok a
wrap t (err e) = err (wrapped t e)
wrap t panic = panic

pub wrap-eq-ok {ℓ} : {A : Type ℓ} (t : Text) (m : Result A) {a : A} → wrap t m ≡ ok a → m ≡ ok a
wrap-eq-ok t (ok b) e = e
wrap-eq-ok t (err x) e = cc
wrap-eq-ok t panic e = cc

abbrev pub or_err {ℓ} : {A : Type ℓ} → Option A → Error → Result A
or_err none e = err e
or_err (some a) e = ok a

-- An operation on a world that it changes also where it fails.
abbrev pub Exec {ℓ} : Type ℓ → Type ℓ → Type ℓ
Exec W A = W → Result A × W

-- What follows on success, in the world that the first operation leaves.
abbrev pub and_then {ℓ κ ι} :
    {W : Type ℓ} {A : Type κ} {B : Type ι} → Result A × W → (A → W → Result B × W) → Result B × W
and_then (ok a, w) f = f a w
and_then (err e, w) f = (err e, w)
and_then (panic, w) f = (panic, w)

pub and_then-ok {ℓ κ ι} :
    {W : Type ℓ} {A : Type κ} {B : Type ι} (x : Result A × W) (f : A → W → Result B × W) {b : B}
    {w' : W}
    → and_then x f ≡ (ok b, w')
    → (a : A) × (w : W) × (x ≡ (ok a, w)) × (f a w ≡ (ok b, w'))
and_then-ok (ok a, w) f e = (a, w, refl, e)
and_then-ok (err x, w) f e = cc
and_then-ok (panic, w) f e = cc

-- Two continuations that agree, and three operations in a row.
pub and_then-cong {ℓ κ ι} :
    {W : Type ℓ} {A : Type κ} {B : Type ι} (x : Result A × W) (f g : A → W → Result B × W)
    → ((a : A) (w : W) → f a w ≡ g a w)
    → and_then x f ≡ and_then x g
and_then-cong (ok a, w) f g h = h a w
and_then-cong (err e, w) f g h = refl
and_then-cong (panic, w) f g h = refl

pub and_then_assoc {ℓ κ} :
    {W : Type ℓ} {A : Type κ} (x : Result A × W) (f g : A → W → Result A × W)
    → and_then (and_then x f) g ≡ and_then x (λ a w. and_then (f a w) g)
and_then_assoc (ok a, w) f g = refl
and_then_assoc (err e, w) f g = refl
and_then_assoc (panic, w) f g = refl

-- A loop that collects results and returns at the first error.
abbrev pub traverse {ℓ κ} : {A : Type ℓ} {B : Type κ} → (A → Result B) → List A → Result (List B)
traverse f [] = ok []
traverse f (x ∷ xs) = do y ← f x; ys ← traverse f xs; ok (y ∷ ys)

abbrev pub is_panic {ℓ} : {A : Type ℓ} → Result A → Bool
is_panic (ok a) = false
is_panic (err e) = false
is_panic panic = true

pub is_panic-wrap {ℓ} : {A : Type ℓ} (t : Text) (m : Result A) → is_panic (wrap t m) ≡ is_panic m
is_panic-wrap t (ok a) = refl
is_panic-wrap t (err e) = refl
is_panic-wrap t panic = refl

pub is_panic->>= {ℓ κ} :
    {A : Type ℓ} {B : Type κ} (m : Result A) (next : A → Result B)
    → is_panic m ≡ false
    → ((a : A) → is_panic (next a) ≡ false)
    → is_panic (m >>= next) ≡ false
is_panic->>= (ok a) next h k = k a
is_panic->>= (err e) next h k = refl
is_panic->>= panic next h k = cc

-- ===== src/Remote/Spec/Calls.antt =====
-- The calls of the client with one response, against the specification: the steps that all share.
use k3c.Prelude.{◌≡◌, refl, ap, true, Bool-cases, inl, inr}
use k3c.Prelude.Results.{Result, ok, err, panic, Exec}
use k3c.Remote.Server.{answered}
use k3c.Remote.Gate.{Served, check_initialized, mapped, handled}
use k3c.Remote.Calls.{Link, call}
use k3c.Remote.Spec.{behind, delivered, refused, through}

module _ {A B W : Type 0} (l : Link) where
  -- A call is as specified when its handler is, past the gate.
  pub call-behind :
      {X : Type 0} (f : A → Result B) (handler : Exec W A) (to : Result X → Result B)
      (direct : Exec W X)
      → ((w : W)
          → call l f (mapped l.to_grpc (handler w).0, (handler w).1)
            ≡ (to (direct w).0, (direct w).1))
      → (s : Served W)
      → call l f (handled (check_initialized s) l.to_grpc handler s)
        ≡ behind (refused l) to direct s
  unfolding check_initialized
  call-behind f handler to direct h s = elim (Bool-cases s.initialized) [
    | inl e ↦ rw e (ap (λ x. (x.0, record { initialized = true; daemon = x.1 })) (h s.daemon))
    | inr e ↦ rw e refl
  ]

  -- An answer that is put into a message and read back.
  call-answered :
      (f : A → Result B) (g : B → A)
      → ((b : B) → f (g b) ≡ ok b)
      → (x : Result B × W)
      → call l f (mapped l.to_grpc (answered g x).0, (answered g x).1) ≡ (delivered l x.0, x.1)
  call-answered f g h (ok b, w) = ap (λ r. (r, w)) (h b)
  call-answered f g h (err e, w) = refl
  call-answered f g h (panic, w) = refl

  pub call-message :
      (f : A → Result B) (g : B → A)
      → ((b : B) → f (g b) ≡ ok b)
      → (direct : Exec W B) → (s : Served W)
      → call l f (handled (check_initialized s) l.to_grpc (λ w. answered g (direct w)) s)
        ≡ through l direct s
  call-message f g h direct =
      call-behind f (λ w. answered g (direct w)) (delivered l) direct
        (λ w. call-answered f g h (direct w))

module _ {A W : Type 0} (l : Link) where
  call-same : (x : Result A × W) → call l ok (mapped l.to_grpc x.0, x.1) ≡ (delivered l x.0, x.1)
  call-same (ok a, w) = refl
  call-same (err e, w) = refl
  call-same (panic, w) = refl

  -- An answer that is sent as it is.
  pub call-plain :
      (direct : Exec W A) (s : Served W)
      → call l ok (handled (check_initialized s) l.to_grpc direct s) ≡ through l direct s
  call-plain direct = call-behind l ok direct (delivered l) direct (λ w. call-same (direct w))

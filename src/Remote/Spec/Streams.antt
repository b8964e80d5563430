-- ===== src/Remote/Spec/Streams.antt =====
-- The streams of the client, against the specification.
use k3c.Prelude.{
  ℕ, ◌+◌, ◌≡◌, refl, ap, Bool, true, false, Bool-cases, Option-cases, inl, inr, Option, none, some,
  List, [], ◌∷◌, map,
}
use k3c.Prelude.Results.{Error, Result, ok, err, panic, Exec}
use k3c.Remote.Interface.{Channel, nil, yields}
use k3c.Remote.Server.{
  Sends, Streamed, ended, send_all, streamed, stream_ended, with_error, without_error,
}
use k3c.Remote.Gate.{Served, check_initialized, mapped_stream, handled_stream}
use k3c.Remote.Calls.{Link, opened}
use k3c.Remote.Spec.{accepted, channel, channeled}

abbrev pub is_failure : Option Error → Bool
is_failure none = false
is_failure (some e) = true

-- gRPC's streams: after a Send that fails all the later ones fail.
abbrev pub StaysBroken : Sends → Type 0
StaysBroken sends = (n : ℕ) → is_failure (sends n) ≡ true → is_failure (sends (n + 1)) ≡ true

module _ {A B : Type 0} (sends : Sends) (broken : StaysBroken sends) where
  none_sent :
      (f : A → B) (n : ℕ) (last : Option Error) (xs : List A)
      → is_failure (sends n) ≡ true
      → (send_all f sends n last xs).0 ≡ []
  unfolding send_all
  none_sent f n last [] h = refl
  none_sent f n last (x ∷ xs) h = elim (Option-cases (sends n)) [
    | inl e ↦ cc
    | inr (reason, e) ↦ rw e (none_sent f (n + 1) (some reason) xs (broken n h))
  ]

  -- The messages that were sent, read back.
  map-send_all :
      {C : Type 0} (f : A → B) (g : B → C) (h : A → C) (same : (x : A) → g (f x) ≡ h x) (n : ℕ)
      (last : Option Error) (xs : List A)
      → map g (send_all f sends n last xs).0 ≡ map h (accepted sends n xs)
  unfolding send_all accepted
  map-send_all f g h same n last [] = refl
  map-send_all f g h same n last (x ∷ xs) = elim (Option-cases (sends n)) [
    | inl e ↦ rw e (cc (same x, map-send_all f g h same (n + 1) last xs))
    | inr (reason, e) ↦
        rw e (ap (map g) (none_sent f (n + 1) (some reason) xs (broken n (ap is_failure e))))
  ]

-- A handler ends with what was sent, whatever error it returns.
abbrev IsFinish : {B : Type 0} → (List B × Option Error → Streamed B) → Type 0
IsFinish {B} finish =
    (sent : List B × Option Error) → (r : Result (Unit {0})) × (finish sent ≡ ended sent.0 r)

module _ {A B W : Type 0} (l : Link) (broken : StaysBroken l.sends) where
  module _ (finish : List B × Option Error → Streamed B) (ends : IsFinish finish) where
    opened-stream_ended :
        (f : A → B) (g : B → A) (h : A → A)
        → ((x : A) → g (f x) ≡ h x)
        → (x : Result (Channel A) × W)
        → opened g (
          mapped_stream l.to_grpc (stream_ended (streamed finish f l.sends) x).0,
          (stream_ended (streamed finish f l.sends) x).1,
        )
          ≡ (channel l h x.0, x.1)
    opened-stream_ended f g h same (ok nil, w) = refl
    opened-stream_ended f g h same (err e, w) = refl
    opened-stream_ended f g h same (panic, w) = refl
    opened-stream_ended f g h same (ok (yields xs), w) =
        let (r, e) = ends (send_all f l.sends 0 none xs) in
        rw e (ap (λ ms. (ok (yields ms), w)) (map-send_all l.sends broken f g h same 0 none xs))

    pub opened-channeled :
        (f : A → B) (g : B → A) (h : A → A)
        → ((x : A) → g (f x) ≡ h x)
        → (direct : Exec W (Channel A)) (s : Served W)
        → opened g (
            handled_stream
              (check_initialized s)
              l.to_grpc
              (λ w. stream_ended (streamed finish f l.sends) (direct w))
              s)
          ≡ channeled l h direct s
    unfolding check_initialized
    opened-channeled f g h same direct s = elim (Bool-cases s.initialized) [
      | inl e ↦ rw e (
          ap (λ x. (x.0, record { initialized = true; daemon = x.1 }))
            (opened-stream_ended f g h same (direct s.daemon)))
      | inr e ↦ rw e refl
    ]

-- The two kinds of handlers.
pub ends-with_error :
    {B : Type 0} (sent : List B × Option Error)
    → (r : Result (Unit {0})) × (with_error sent ≡ ended sent.0 r)
ends-with_error (sent, last) = (_, refl)

pub ends-without_error :
    {B : Type 0} (sent : List B × Option Error)
    → (r : Result (Unit {0})) × (without_error sent ≡ ended sent.0 r)
ends-without_error (sent, last) = (_, refl)

-- ===== src/Remote/Spec/Times.antt =====
-- The times of a progress report, which cross the wire as 64-bit numbers of nanoseconds.
use k3c.Prelude.{
  ℕ, ◌-◌, ◌%◌, ◌^◌, ◌<◌, ◌≡◌, refl, sym, ap, subst, ◌↔◌, List, [], ◌∷◌, map, arith, ltb, ltb→lt,
  Bool-cases, inl, inr,
}
use k3c.Prelude.Int.{ℤ, pos, negsuc, to_int64, signed_64, FitsInt64, to_int64_fits}
use k3c.PushStatus.{Info}
use k3c.Remote.Server.{to_info_response}
use k3c.Remote.Calls.{info_of}

signed_64-FitsInt64 : (m : ℕ) → m < 2 ^ 64 → FitsInt64 (signed_64 m)
unfolding signed_64
signed_64-FitsInt64 m h = elim (Bool-cases (ltb m (2 ^ 63))) [
  | inl e ↦
      let low : signed_64 m ≡ pos m = rw e refl in subst FitsInt64 (sym low) (ltb→lt m (2 ^ 63) e)
  | inr e ↦
      let high : signed_64 m ≡ negsuc (2 ^ 64 - 1 - m) = rw e refl in
      let bound : 2 ^ 64 - 1 - m < 2 ^ 63 = ground arith in subst FitsInt64 (sym high) bound
]

to_int64-FitsInt64 : (x : ℤ) → FitsInt64 (to_int64 x)
unfolding to_int64
to_int64-FitsInt64 (pos n) = signed_64-FitsInt64 (n % 2 ^ 64) (omega arith)
to_int64-FitsInt64 (negsuc n) = signed_64-FitsInt64 (2 ^ 64 - 1 - n % 2 ^ 64) (omega arith)

cons-injective : {A : Type 0} {x y : A} {xs ys : List A} → x ∷ xs ≡ y ∷ ys → (x ≡ y) × (xs ≡ ys)
cons-injective e = (cc e, cc e)

-- The times between 1677 and 2262
abbrev pub InRange : List Info → Type 0
InRange [] = Unit
InRange (i ∷ infos) = (FitsInt64 i.started_at × FitsInt64 i.updated_at) × InRange infos

unchanged : (infos : List Info) → InRange infos → map info_of (to_info_response infos) ≡ infos
unfolding to_info_response
unchanged [] h = refl
unchanged (i ∷ infos) ((started, updated), h) =
    rw (to_int64_fits i.started_at started, to_int64_fits i.updated_at updated)
      (ap (λ r. i ∷ r) (unchanged infos h))

in_range : (infos : List Info) → map info_of (to_info_response infos) ≡ infos → InRange infos
unfolding to_info_response
in_range [] e = tt
in_range (i ∷ infos) e =
    let (first, later) = (cons-injective e) in
    (
      (
        subst FitsInt64 (ap (λ x. x.started_at) first) (to_int64-FitsInt64 i.started_at),
        subst FitsInt64 (ap (λ x. x.updated_at) first) (to_int64-FitsInt64 i.updated_at),
      ),
      in_range infos later,
    )

-- A report arrives as the daemon made it exactly where all of its times are within 2^63 nanoseconds of
-- the year 1970.
pub to_info_response-read :
    (infos : List Info) → (map info_of (to_info_response infos) ≡ infos) ↔ InRange infos
to_info_response-read infos = (in_range infos, unchanged infos)

-- ===== src/Daemon/Gc/Counts.antt =====
-- The map of runGC counts the containers of each pod that can be read.
use k3c.Prelude.{
  ℕ, zero, suc, ◌+◌, ◌≡◌, refl, ◌∙◌, Bool, true, Option, none, some, List, [], ◌∷◌, ◌&&◌, any,
  if◌then◌else◌, arith, Bool-cases, inl, inr,
}
use k3c.Prelude.Text.{Text, ◌==◌, eq_iff}
use k3c.Prelude.Maps.{Map, lookup, insert, get_or, lookup-insert, NodupKeys, insert-NodupKeys}
use k3c.Cri.{PodSandbox, Container}
use k3c.Daemon.Runtime.{Runtime, Codec}
use k3c.Daemon.Gc.{zero_counts, readable, scan}

zero_counts-NodupKeys :
    (ps : List PodSandbox) (m : Map ℕ) → NodupKeys m → NodupKeys (zero_counts ps m)
unfolding zero_counts
zero_counts-NodupKeys [] m h = h
zero_counts-NodupKeys (p ∷ ps) m h = zero_counts-NodupKeys ps _ (insert-NodupKeys p.id 0 m h)

lookup-zero_counts :
    (j : Text) (ps : List PodSandbox) (m : Map ℕ)
    → lookup j (zero_counts ps m) ≡ (if any (λ p. p.id == j) ps then some 0 else lookup j m)
unfolding zero_counts
lookup-zero_counts j [] m = refl
lookup-zero_counts j (p ∷ ps) m =
    ground (arith, lookup-zero_counts j ps (insert p.id 0 m), lookup-insert j p.id 0 m)

module _ (r : Runtime) (c : Codec) where
  -- The containers of pod `j` that can be read.
  abbrev pub belongs : Text → Container → Bool
  belongs j x = readable r c x && x.pod_sandbox_id == j

  abbrev pub count : Text → List Container → ℕ
  count j [] = 0
  count j (x ∷ xs) = if belongs j x then count j xs + 1 else count j xs

  -- A map's entry, raised by a count.
  abbrev raise : Option ℕ → ℕ → Option ℕ
  raise o zero = o
  raise none (suc n) = some (suc n)
  raise (some k) (suc n) = some (k + suc n)

  scan-NodupKeys :
      (xs : List Container) (m : Map ℕ) (w : r.World) → NodupKeys m → NodupKeys (scan r c xs m w).0
  unfolding scan
  scan-NodupKeys [] m w h = h
  scan-NodupKeys (x ∷ xs) m w h = elim (Bool-cases (readable r c x)) [
    | inl e ↦ rw (e, scan) (scan-NodupKeys xs _ w (insert-NodupKeys _ _ m h))
    | inr e ↦ rw (e, scan) (scan-NodupKeys xs m _ h)
  ]

  raise-add_one :
      (o : Option ℕ) (n : ℕ)
      → raise (some ((elim o [ none ↦ 0 | some v ↦ v ]) + 1)) n ≡ raise o (n + 1)
  raise-add_one none zero = ground arith
  raise-add_one none (suc n) = ground arith
  raise-add_one (some k) zero = ground arith
  raise-add_one (some k) (suc n) = ground arith

  raise-insert :
      (j k : Text) (m : Map ℕ) (n : ℕ)
      → raise (lookup j (insert k (get_or 0 k m + 1) m)) n
        ≡ raise (lookup j m) (if k == j then n + 1 else n)
  raise-insert j k m n = rw lookup-insert (elim (Bool-cases (k == j)) [
    | inl e ↦ let same : k ≡ j = (eq_iff k j).0 e in rw (e, same) (raise-add_one (lookup j m) n)
    | inr e ↦ rw e refl
  ])

  lookup-scan :
      (j : Text) (xs : List Container) (m : Map ℕ) (w : r.World)
      → lookup j (scan r c xs m w).0 ≡ raise (lookup j m) (count j xs)
  unfolding scan
  lookup-scan j [] m w = refl
  lookup-scan j (x ∷ xs) m w = elim (Bool-cases (readable r c x)) [
    | inl e ↦ rw (e, scan) (lookup-scan j xs _ w ∙ raise-insert j x.pod_sandbox_id m (count j xs))
    | inr e ↦ rw (e, scan) (lookup-scan j xs m _)
  ]

  -- The counts that runGC arrives at.
  abbrev pub counts : List PodSandbox → List Container → r.World → Map ℕ
  counts ps xs w = (scan r c xs (zero_counts ps []) w).0

  pub counts-NodupKeys :
      (ps : List PodSandbox) (xs : List Container) (w : r.World) → NodupKeys (counts ps xs w)
  counts-NodupKeys ps xs w = scan-NodupKeys xs _ w (zero_counts-NodupKeys ps [] tt)

  -- A pod that is listed has the number of its containers that can be read.
  pub lookup-counts :
      (j : Text) (ps : List PodSandbox) (xs : List Container) (w : r.World)
      → any (λ p. p.id == j) ps ≡ true
      → lookup j (counts ps xs w) ≡ some (count j xs)
  lookup-counts j ps xs w h =
      lookup-scan j xs (zero_counts ps []) w
      ∙ rw (lookup-zero_counts j ps [], h) (raise_zero (count j xs))
    where
      raise_zero : (n : ℕ) → raise (some 0) n ≡ some n
      raise_zero zero = refl
      raise_zero (suc n) = ground arith

-- ===== src/Volume/Lifecycle.antt =====
-- Volumes that are created, found and removed, over any lawful file system.
use k3c.Prelude.{ℕ, ◌≡◌, ◌≢◌, refl, Bool, true, List, arith, if◌then◌else◌, Bool-cases, inl, inr}
use k3c.Prelude.Text.{Text, codes, is_empty, ◌==◌, eq_iff, eq_refl}
use k3c.Prelude.Results.{Result, ok, err, panic, other}
use k3c.Paths.{join}
use k3c.Paths.Laws.{is_within, is_within-join, join_same}
use k3c.Volume.{
  Disk, Stat, present, not_exist, failed, matches_name, hex_encode, resolve, get_volume,
  create_volume, remove_volume, named_result, is_missing,
}
use k3c.Volume.Resolve.{matches_name-IsComponent}

-- What the manager relies on: mkdir makes a directory where nothing is, and RemoveAll leaves
-- nothing of a path and what lies under it. Neither touches anything else.
pub record IsLawful (d : Disk) : Type 0 where
  pub mkdir_fresh : (p : Text) (s s' : d.State) → d.mkdir p s ≡ (ok tt, s') → d.stat p s ≡ not_exist
  pub stat-mkdir :
      (p q : Text) (s s' : d.State)
      → d.mkdir p s ≡ (ok tt, s')
      → d.stat q s' ≡ (if p == q then present else d.stat q s)
  pub stat-remove_all :
      (p q : Text) (s s' : d.State)
      → d.remove_all p s ≡ (ok tt, s')
      → d.stat q s' ≡ (if is_within p q then not_exist else d.stat q s)

-- What GetVolume answers for a well-formed name that has no volume.
abbrev pub missing : Result Text
missing = err (other (codes "file does not exist"))

module _ (d : Disk) (l : IsLawful d) (dir : Text) where
  named_result-ok :
      (name id : Text) (r : Result (Unit {0}) × d.State) (s' : d.State)
      → named_result d dir name r ≡ (ok id, s')
      → (id ≡ name) × (r ≡ (ok tt, s'))
  named_result-ok name id (ok _, t) s' e = ground arith
  named_result-ok name id (err x, t) s' e = ground arith
  named_result-ok name id (panic, t) s' e = ground arith

  created :
      (uuid : List ℕ) (name id : Text) (s s' : d.State)
      → create_volume d dir uuid name s ≡ (ok id, s')
      → (id ≡ (if is_empty name then hex_encode uuid else name))
        × (matches_name id ≡ true)
        × (d.mkdir (join dir id) s ≡ (ok tt, s'))
  unfolding create_volume
  created uuid name id s s' e =
      let wanted : Text = if is_empty name then hex_encode uuid else name in
      elim (Bool-cases (matches_name wanted)) [
        | inl good ↦
            let (same, made) =
              named_result-ok wanted id (d.mkdir (join dir wanted) s) s'
                (rw (good, create_volume) at e) in
            (same, rw same good, rw same made)
        | inr bad ↦ cc (bad, e)
      ]

  stat-created :
      (id k : Text) (s s' : d.State)
      → matches_name id ≡ true
      → matches_name k ≡ true
      → d.mkdir (join dir id) s ≡ (ok tt, s')
      → d.stat (join dir k) s' ≡ (if id == k then present else d.stat (join dir k) s)
  stat-created id k s s' gi gk made =
      rw
        (
          l.stat-mkdir (join dir id) (join dir k) s s' made,
          join_same dir id k (matches_name-IsComponent id gi) (matches_name-IsComponent k gk),
        )
        refl

  found :
      (id k : Text) (s s' : d.State)
      → matches_name id ≡ true
      → d.mkdir (join dir id) s ≡ (ok tt, s')
      → get_volume d dir k s' ≡ (if id == k then ok k else get_volume d dir k s)
  unfolding get_volume
  found id k s s' good made = elim (Bool-cases (matches_name k)) [
    | inl gk ↦ rw (gk, get_volume, stat-created id k s s' good gk made) (ground arith)
    | inr bad ↦ rw (bad, get_volume) (ground (arith, eq_iff id k))
  ]

  refused :
      (id u : List ℕ) (j : Text) (s s' s'' : d.State)
      → matches_name id ≡ true
      → d.mkdir (join dir id) s ≡ (ok tt, s')
      → create_volume d dir u id s' ≢ (ok j, s'')
  refused id u j s s' s'' good made again =
      let (same, _, remade) = created u id j s' s'' again in
      let plain = matches_name-IsComponent id good in
      let itself : j ≡ id = rw plain.not_empty at same in
      cc (
        l.mkdir_fresh (join dir id) s' s'' (rw itself at remade),
        stat-created id id s s' good good made,
        eq_refl id,
      )

  -- On a lawful disk: when CreateVolume succeeds, the volume has the name that was asked for, or
  -- the digits of the fresh UUID where none was. From then on GetVolume finds it, finds every
  -- other name as before, and creating it a second time does not succeed.
  pub create_volume_lem :
      (uuid : List ℕ) (name id : Text) (s s' : d.State)
      → create_volume d dir uuid name s ≡ (ok id, s')
      → (id ≡ (if is_empty name then hex_encode uuid else name))
        × ((k : Text) → get_volume d dir k s' ≡ (if id == k then ok k else get_volume d dir k s))
        × ((other_uuid : List ℕ) (j : Text) (s'' : d.State)
            → create_volume d dir other_uuid id s' ≢ (ok j, s''))
  create_volume_lem uuid name id s s' e =
      let (same, good, made) = created uuid name id s s' e in
      (same, λ k. found id k s s' good made, λ u j s''. refused id u j s s' s'' good made)

  is_missing-eq : (t : Stat) → is_missing d dir t ≡ true → t ≡ not_exist
  is_missing-eq present h = cc
  is_missing-eq not_exist h = refl
  is_missing-eq (failed e) h = cc

  gone :
      (name k : Text) (s s' : d.State)
      → matches_name name ≡ true
      → d.remove_all (join dir name) s ≡ (ok tt, s')
      → get_volume d dir k s' ≡ (if name == k then missing else get_volume d dir k s)
  unfolding get_volume
  gone name k s s' good removed = elim (Bool-cases (matches_name k)) [
    | inl gk ↦
        rw
          (
            gk,
            get_volume,
            l.stat-remove_all (join dir name) (join dir k) s s' removed,
            is_within-join dir name k (matches_name-IsComponent name good)
                (matches_name-IsComponent k gk),
          )
          (ground arith)
    | inr bad ↦ rw (bad, get_volume) (ground (arith, eq_iff name k))
  ]

  was_missing :
      (name k : Text) (s : d.State)
      → matches_name name ≡ true
      → d.stat (join dir name) s ≡ not_exist
      → get_volume d dir k s ≡ (if name == k then missing else get_volume d dir k s)
  unfolding get_volume
  was_missing name k s good absent = ground (arith, eq_iff name k)

  -- On a lawful disk: when RemoveVolume reports success, forced or not, the name was well formed,
  -- and GetVolume finds that volume no more and every other one as before.
  pub remove_volume_lem :
      (name : Text) (force : Bool) (s s' : d.State)
      → remove_volume d dir name force s ≡ (ok tt, s')
      → (matches_name name ≡ true)
        × ((k : Text)
            → get_volume d dir k s' ≡ (if name == k then missing else get_volume d dir k s))
  unfolding remove_volume resolve
  remove_volume_lem name force s s' e = elim (Bool-cases (matches_name name)) [
    | inl good ↦ elim (Bool-cases (is_missing d dir (d.stat (join dir name) s))) [
      | inl m ↦
          let same : s ≡ s' = ground arith in
          (good, λ k. rw (← same) (was_missing name k s good (is_missing-eq _ m)))
      | inr m ↦ (good, λ k. gone name k s s' good (ground arith))
    ]
    | inr bad ↦ cc (bad, e)
  ]

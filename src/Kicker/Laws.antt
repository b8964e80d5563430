-- ===== src/Kicker/Laws.antt =====
-- What the waiting goroutine sees of a kicker.
use k3c.Prelude.{◌≡◌, refl, true, false, not, some}
use k3c.Kicker.{Kicker, kick, poll_kicked, Step, kicks, cancels, watches, Reach, here, next}

Step-kicked : {k l : Kicker} → Step k l → k.kicked ≡ true → l.kicked ≡ true
unfolding kick
Step-kicked (kicks k) h = refl
Step-kicked (cancels k) h = h
Step-kicked (watches k d w) h = refl

Reach-kicked : {k l : Kicker} → k.kicked ≡ true → Reach k l → l.kicked ≡ true
Reach-kicked h here = h
Reach-kicked h (next r s) = Step-kicked s (Reach-kicked h r)

poll_kicked-kicked : (k : Kicker) → k.kicked ≡ true → poll_kicked k ≡ some (not k.done)
unfolding poll_kicked
poll_kicked-kicked k h = rw h refl

-- After one kick, whatever other goroutines do, `Kicked` never waits again: it answers at once,
-- true while the context is not cancelled and false from then on.
pub kick_is_never_consumed :
    (k : Kicker) {l : Kicker} → Reach (kick k) l → poll_kicked l ≡ some (not l.done)
unfolding kick
kick_is_never_consumed k {l} r = poll_kicked-kicked l (Reach-kicked refl r)

record Inv (k : Kicker) : Type 0 where
  woken : k.watching ≡ false → (k.kicked ≡ true) × (k.done ≡ true)

-- What the goroutine of New makes of a kicker: it kicks, and is done.
abbrev pub woken_by : Kicker → Kicker
unfolding kick
woken_by k = kick (record k { watching = false })

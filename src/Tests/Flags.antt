-- ===== src/Tests/Flags.antt =====
-- Flags, kicker, push status and volumes on concrete inputs.
use k3c.Prelude.{◌≡◌, ◌≢◌, refl, not, true, false, none, some, List, [], ◌∷◌, map, ◌+◌, ◌^◌, arith}
use k3c.Prelude.Text.{Text, codes, ◌==◌, eq_iff, contains}
use k3c.Prelude.Results.{ok, err}
use k3c.Cri.{tcp, udp}
use k3c.Ports
use k3c.Ports.{parse_port}
use k3c.Ports.Laws.{Publish, written, meant, show_port, parse_ports-written, parse_port_wraps}
use k3c.VolumeFlags
use k3c.VolumeFlags.{parse_volume, invalid_option}
use k3c.VolumeFlags.Laws
use k3c.VolumeFlags.Laws.{Bind, parse_volumes-written, parse_volume-invalid_option}
use k3c.Kicker.{Kicker, new, kick, poll_kicked, here, next, cancels}
use k3c.Kicker.Laws.{kick_is_never_consumed}

-- 8080:80/tcp and 53/udp
abbrev two_ports : List Publish
two_ports =
    record { protocol = tcp; host = 8080; dest = 80 }
    ∷ record { protocol = udp; host = 0; dest = 53 }
    ∷ []

parse_ports-written_example : Ports.parse (map written two_ports) ≡ ok (map meant two_ports)
parse_ports-written_example = parse_ports-written two_ports (omega arith)

parse_port_wraps_example :
    parse_port (show_port tcp 8080 (80 + 2 ^ 32)) ≡ parse_port (show_port tcp 8080 80)
parse_port_wraps_example = parse_port_wraps tcp 8080 80 (omega arith) (omega arith)

differs : {s t : Text} → (s == t) ≡ false → s ≢ t
differs {s} {t} h e = cc (h, (eq_iff s t).1 e)

-- /etc:/etc:ro, data:/data and /tmp
abbrev three_volumes : List Bind
three_volumes =
    record { src = some (codes "/etc"); dest = codes "/etc"; option = some true }
    ∷ record { src = some (codes "data"); dest = codes "/data"; option = none }
    ∷ record { src = none; dest = codes "/tmp"; option = none }
    ∷ []

parse_volumes-written_example :
    VolumeFlags.parse (map VolumeFlags.Laws.written three_volumes)
    ≡ ok (map VolumeFlags.Laws.meant three_volumes)
unfolding contains ◌==◌
parse_volumes-written_example =
    parse_volumes-written three_volumes
      ((refl, refl), ((refl, refl, differs refl, differs refl), (refl, tt)))

unknown_option_rx :
    parse_volume (codes "/a:/b:rx") ≡ err (invalid_option (codes "rx") (codes "/a:/b:rx"))
unfolding contains ◌==◌
unknown_option_rx =
    parse_volume-invalid_option (codes "/a") (codes "/b") (codes "rx") refl refl (differs refl)
      (differs refl)

abbrev kicked_once : Kicker
kicked_once = kick (new false)

kick_is_never_consumed_example : poll_kicked (record kicked_once { done = true }) ≡ some (not true)
kick_is_never_consumed_example =
    kick_is_never_consumed (new false) (next here (cancels (kick (new false))))

-- A fresh kicker that is cancelled before any kick: it waits for the goroutine of New.
abbrev cancelled : Kicker
cancelled = record (new false) { done = true }

-- ===== src/Commands/Create/Served.antt =====
-- `create` over gRPC on the daemon itself.
use k3c.Prelude.{◌≡◌, false, some}
use k3c.Prelude.Text.{Text, is_empty}
use k3c.Daemon.Runtime.{Runtime, done}
use k3c.Daemon.Images
use k3c.Daemon.Images.{ImageServices, CriImage}

-- The image service gives each image an id.
abbrev pub GivesIds : ImageServices → Type 0
GivesIds v =
    (image : Text) (w : v.World) (i : CriImage)
    → v.status image w ≡ done (some i)
    → is_empty i.id ≡ false

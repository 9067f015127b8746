-- ===== src/Bridge/Tests.antt =====
-- A proxy whose relay goes on after the end of the input.
use rust_ssh.Prelude.{List, [], ◌∷◌, none}
use rust_ssh.Bridge.{BridgeEvent, uploads, downloads, upload_ends, download_ends, Bridge}

abbrev events : List BridgeEvent
events =
    uploads (1 ∷ 2 ∷ [])
    ∷ upload_ends none
    ∷ downloads (3 ∷ [])
    ∷ downloads (4 ∷ [])
    ∷ download_ends none
    ∷ []

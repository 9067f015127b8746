-- ===== src/Identity/Tests.antt =====
-- The theorem on `generate` at two paths.
use rust_ssh.Prelude.{refl, [], none, some, codes, Text, Option, Always}
use rust_ssh.Pairing.{Codecs}
use rust_ssh.Pairing.Sample.{sample_codecs}
use rust_ssh.Identity.{generate}
use rust_ssh.Identity.Laws.{IsGenerated, generate-IsGenerated}

abbrev encodings : Codecs
encodings = sample_codecs (record { server = []; server_key = []; token = []; device_id = none })

abbrev parent_dir : Text → Option Text
parent_dir path = some (codes "/etc")

generate-IsGenerated_example :
    Always
      (IsGenerated encodings parent_dir (codes "/etc/key") (codes "/etc/key.pub"))
      []
      (generate encodings parent_dir (codes "/etc/key") (codes "/etc/key.pub"))
generate-IsGenerated_example =
    generate-IsGenerated encodings parent_dir (codes "/etc/key") (codes "/etc/key.pub") refl

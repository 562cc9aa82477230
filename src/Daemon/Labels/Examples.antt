-- ===== src/Daemon/Labels/Examples.antt =====
-- daemon.rs at a label that would leave the directory.
use dial_f.Prelude.{◌≡◌, refl, some, All}
use dial_f.Prelude.Text.{bytes}
use dial_f.Daemon.Labels.{sanitize_label, session_name}
use dial_f.Daemon.Labels.Trimmed.{IsLabel, IsKept}
use dial_f.Daemon.Labels.Safe.{sanitize_label_lem}

sanitize_label_lem_example :
    IsLabel (bytes "etc-passwd")
    × (sanitize_label (bytes "etc-passwd") ≡ some (bytes "etc-passwd"))
    × All IsKept (session_name (some (bytes "../../etc/passwd")) 1700000000000)
unfolding sanitize_label bytes
sanitize_label_lem_example =
    sanitize_label_lem (bytes "../../etc/passwd") (bytes "etc-passwd")
      (some (bytes "../../etc/passwd")) 1700000000000 refl

-- ===== src/Honeypot/Tests.antt =====
-- The largest download of the decoy service.
use infovulcan.Common.{◌≤◌, All}
use infovulcan.Honeypot.{download_backup, sum, Serves, download_backup_lem}

download_backup_lem_example :
    All (λ n. n ≤ 65536) (download_backup 500) × Serves 500 (sum (download_backup 500))
download_backup_lem_example = download_backup_lem 500

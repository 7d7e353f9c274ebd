-- ===== src/Manifest/Lines/Cut.antt =====
-- A file whose last line was cut short, as an append that failed or a crash leaves it.
use mnemosia.Manifest.Entry.{Entry}

-- ===== src/Ingest/Tests/Reads.antt =====
-- A change that is read.
use web_comunidad_solar.Prelude.{◌≡◌, List}
use web_comunidad_solar.Ingest.Failure.{ok}
use web_comunidad_solar.Ingest.Journal.{JournalEvent}
use web_comunidad_solar.Ingest.Store.{read_change}
use web_comunidad_solar.Ingest.Store.Reading.{read_change-Holds}
use web_comunidad_solar.Ingest.Store.Sound.{IsBacked, read_change-IsBacked}
use web_comunidad_solar.Ingest.Store.OnDisk.{IsRecorded, IsLogged}
use web_comunidad_solar.Ingest.Tests.{platform, host, change, current, disk}
use web_comunidad_solar.Ingest.Tests.Changes.{disk-Holds}

disk-read : read_change platform host change disk ≡ (ok current, disk)
disk-read = read_change-Holds platform host change disk-Holds

read_change-IsBacked_example :
    (disk ≡ disk)
    × IsRecorded platform change disk current
    × ((es : List JournalEvent) × IsLogged platform disk es × IsBacked platform current es)
read_change-IsBacked_example = read_change-IsBacked platform host change disk disk current disk-read

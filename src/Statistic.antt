-- ===== src/Statistic.antt =====
-- tunnel/statistic: the manager of the connections and their traffic. An atomic.Int64 is its bit
-- pattern, below 2 ^ 64.
pub mod Laws
mod Tests
use tun_flow.Base.{
  ℕ, ◌+◌, ◌%◌, ◌^◌, Bool, true, false, List, [], ◌∷◌, Option, none, some, if◌then◌else◌, Bytes,
  Result,
}
use tun_flow.Base.Text.{bytes_eq}

abbrev pub add_64 : ℕ → ℕ → ℕ
add_64 a b = (a + b) % 2 ^ 64

-- `trackerInfo`: the id as text, and the totals of one connection.
pub record TrackerInfo : Type 0 where
  pub id : Bytes
  pub upload_total : ℕ
  pub download_total : ℕ

-- `Manager`, with the ids of the trackers that it holds.
pub record Manager : Type 0 where
  pub connections : List Bytes
  pub upload_temp : ℕ
  pub download_temp : ℕ
  pub upload_blip : ℕ
  pub download_blip : ℕ
  pub upload_total : ℕ
  pub download_total : ℕ

-- `sync.Map.Delete`.
abbrev pub without : Bytes → List Bytes → List Bytes
without i [] = []
without i (j ∷ js) = let rest = without i js in if bytes_eq j i then rest else j ∷ rest

-- `Join` and `Leave`.
unfoldable pub join : TrackerInfo → Manager → Manager
join t m = record m { connections = t.id ∷ without t.id m.connections }

unfoldable pub leave : TrackerInfo → Manager → Manager
leave t m = record m { connections = without t.id m.connections }

-- The atomic operations of `PushUploaded` and `PushDownloaded`.
abbrev pub add_upload_temp : ℕ → Manager → Manager
add_upload_temp n m = record m { upload_temp = add_64 m.upload_temp n }

abbrev pub add_upload_total : ℕ → Manager → Manager
add_upload_total n m = record m { upload_total = add_64 m.upload_total n }

abbrev pub add_download_temp : ℕ → Manager → Manager
add_download_temp n m = record m { download_temp = add_64 m.download_temp n }

abbrev pub add_download_total : ℕ → Manager → Manager
add_download_total n m = record m { download_total = add_64 m.download_total n }

abbrev pub push_uploaded : ℕ → Manager → Manager
push_uploaded n m = add_upload_total n (add_upload_temp n m)

abbrev pub push_downloaded : ℕ → Manager → Manager
push_downloaded n m = add_download_total n (add_download_temp n m)

-- `Now`.
abbrev pub now : Manager → ℕ × ℕ
now m = (m.upload_blip, m.download_blip)

-- `Snapshot`.
pub record Snapshot : Type 0 where
  pub download_total : ℕ
  pub upload_total : ℕ
  pub connections : List Bytes

abbrev pub snapshot : Manager → Snapshot
snapshot m = record {
  download_total = m.download_total;
  upload_total = m.upload_total;
  connections = m.connections;
}

-- `ResetStatistic`.
abbrev pub reset_statistic : Manager → Manager
reset_statistic m = record m {
  upload_temp = 0;
  upload_blip = 0;
  upload_total = 0;
  download_temp = 0;
  download_blip = 0;
  download_total = 0;
}

-- The atomic operations of one round of `handle`: the stores of what was loaded, and of zero.
abbrev pub store_upload : ℕ → Manager → Manager
store_upload loaded m = record m { upload_blip = loaded }

abbrev pub clear_upload : Manager → Manager
clear_upload m = record m { upload_temp = 0 }

abbrev pub store_download : ℕ → Manager → Manager
store_download loaded m = record m { download_blip = loaded }

abbrev pub clear_download : Manager → Manager
clear_download m = record m { download_temp = 0 }

-- A round of `handle` that nothing interrupts.
unfoldable pub handle : Manager → Manager
handle m =
    let up = clear_upload (store_upload m.upload_temp m) in
    clear_download (store_download up.download_temp up)

-- `tcpTracker.Read` after n bytes came, `tcpTracker.Write` after n bytes went.
unfoldable pub tracker_read : ℕ → TrackerInfo → Manager → TrackerInfo × Manager
tracker_read n t m = (record t { download_total = add_64 t.download_total n }, push_downloaded n m)

unfoldable pub tracker_write : ℕ → TrackerInfo → Manager → TrackerInfo × Manager
tracker_write n t m = (record t { upload_total = add_64 t.upload_total n }, push_uploaded n m)

-- `NewTCPTracker`, with the id that uuid.NewRandom makes.
abbrev pub fresh_info : Bytes → TrackerInfo
fresh_info i = record { id = i; upload_total = 0; download_total = 0 }

unfoldable pub new_tracker : Bytes → Manager → TrackerInfo × Manager
new_tracker i m = (fresh_info i, join (fresh_info i) m)

-- `udpTracker.ReadFrom` and `udpTracker.WriteTo`.
unfoldable pub tracker_read_from : ℕ → TrackerInfo → Manager → TrackerInfo × Manager
tracker_read_from n t m =
    (record t { download_total = add_64 t.download_total n }, push_downloaded n m)

unfoldable pub tracker_write_to : ℕ → TrackerInfo → Manager → TrackerInfo × Manager
tracker_write_to n t m = (record t { upload_total = add_64 t.upload_total n }, push_uploaded n m)

-- `NewUDPTracker`.
unfoldable pub new_udp_tracker : Bytes → Manager → TrackerInfo × Manager
new_udp_tracker i m = (fresh_info i, join (fresh_info i) m)

-- `tcpTracker.Close` and `udpTracker.Close`, before the connection's own.
unfoldable pub tracker_close : TrackerInfo → Manager → Manager
tracker_close t m = leave t m

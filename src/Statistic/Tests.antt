-- ===== src/Statistic/Tests.antt =====
-- Concrete runs of the traffic statistic.
use tun_flow.Base.{◌≡◌, refl, [], ◌∷◌, Bytes}
use tun_flow.Statistic.{Manager}
use tun_flow.Statistic.Laws.{Ledger, Balanced, Gaps, up, handle_among, Short, handle_among-Short}

abbrev first : Bytes
first = 1 ∷ []

abbrev second : Bytes
second = 2 ∷ []

-- One connection.
abbrev idle : Manager
idle = record {
  connections = first ∷ [];
  upload_temp = 0;
  download_temp = 0;
  upload_blip = 0;
  download_blip = 0;
  upload_total = 0;
  download_total = 0;
}

abbrev opened : Ledger
opened = record { manager = idle; uploads_taken = 0; downloads_taken = 0 }

opened-Balanced : Balanced opened
opened-Balanced = record { uploads_are = refl; downloads_are = refl }

-- Seven bytes go out between the load and the reset.
abbrev race : Gaps
race = record {
  before_load = [];
  before_store = up 7 ∷ [];
  before_clear = [];
  between = [];
  before_down_store = [];
  before_down_clear = [];
  behind = [];
}

lost : handle_among race idle ≡ record idle { upload_total = 7 }
unfolding handle_among
lost = refl

handle_among-Short_example : Short race idle (handle_among race idle)
handle_among-Short_example = handle_among-Short race idle

-- ===== src/Samples.antt =====
-- A cluster of four, for the tests.
use adaptive_leader.Base.{ℕ, true, [], ◌∷◌, GoString, Map, codes}
use adaptive_leader.Config.{Config, Address, General, Timers}

abbrev pub node_0 : GoString
node_0 = codes "node_0"

abbrev pub node_1 : GoString
node_1 = codes "node_1"

abbrev pub node_2 : GoString
node_2 = codes "node_2"

abbrev pub node_3 : GoString
node_3 = codes "node_3"

abbrev pub address : ℕ → Address
address port = record { host = codes "0.0.0.0"; port = port }

abbrev pub general : General
general = record {
  enabled_by_default = true;
  max_outstanding_requests = 3;
  checkpoint_interval = 2;
  water_mark_interval = 10;
}

abbrev pub timers : Timers
timers = record { view_change_timeout_ms = 30000; request_timeout_ms = 20000 }

abbrev pub peers : Map GoString Address
peers =
    (node_2, address 5003)
    ∷ (node_0, address 5001)
    ∷ (node_3, address 5004)
    ∷ (node_1, address 5002)
    ∷ []

abbrev pub cluster : Config
cluster = record {
  id = node_0;
  address = address 5001;
  peers_address = peers;
  timers = timers;
  general = general;
}

-- The node's own id and two more.
abbrev small_cluster : Config
small_cluster = record cluster {
  peers_address = (node_0, address 5001) ∷ (node_1, address 5002) ∷ (node_2, address 5003) ∷ [];
}

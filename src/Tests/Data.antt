-- ===== src/Tests/Data.antt =====
-- A tailnet of two hosts and three peers, a selection, sockets and an app, for the examples.
use tsymbiote.Prelude.{ℕ, zero, suc, String, Bool, true, false, none, some, List, [], ◌∷◌}
use tsymbiote.Api.{profile}
use tsymbiote.Peers.{Node, NodeData, Edge}
use tsymbiote.Selection.{Selection}
use tsymbiote.Stream.{Stream, connecting, open_now, closed, initial_stream}
use tsymbiote.Stream.Format.{Codec, logs}
use tsymbiote.Console.{Console, App}

abbrev data_of : Bool → NodeData
data_of b = record {
  online = some b;
  has_symbiote = false;
  exit_node = false;
  exit_node_option = false;
}

abbrev node : String → Bool → Node
node i b = record { id = i; label = i; fill = ""; node_data = some (data_of b) }

abbrev link : String → String → Edge
link a b = record { id = a; source = a; target = b }

abbrev pub nodes : List Node
nodes = node "h1" true ∷ node "h2" true ∷ node "p1" true ∷ node "p2" false ∷ node "p3" true ∷ []

abbrev pub edges : List Edge
edges = link "h1" "h2" ∷ link "h1" "p1" ∷ link "h2" "p2" ∷ link "h2" "p3" ∷ []

abbrev pub hosts : List String
hosts = "h1" ∷ "h2" ∷ []

abbrev pub selection : Selection
selection = record {
  nodes = nodes;
  edges = edges;
  hosts = hosts;
  selected_hosts = hosts;
  selected_targets = "p1" ∷ [];
  hide_offline_peers = true;
}

-- Socket 0 is open, and streams the logs of both hosts.
abbrev pub open_stream : Stream
open_stream = record initial_stream {
  ws = some 0;
  host_ids = hosts;
  last_pong_time = 1000;
  has_ping_interval = true;
  stream_type = some logs;
  is_streaming = true;
  active_stream_type = some logs;
  created = 1;
  ready = λ i. elim i [ zero ↦ open_now | suc _ ↦ closed ];
  hosts_of = λ i. hosts;
}

-- The same before the socket has opened.
abbrev pub connecting_stream : Stream
connecting_stream = record open_stream {
  last_pong_time = 0;
  ready = λ i. elim i [ zero ↦ connecting | suc _ ↦ closed ];
}

-- Every message is for "h1", and nothing is encoded.
abbrev pub codec : Codec
codec = record {
  parse_message = λ t. some (record { host = "h1"; message = t });
  atob = λ t. some t;
  parse_log = λ t. some (record { text = t; client_time = none });
  parse_event = λ t. none;
  time_string = λ t. t;
}

abbrev pub console : Console ℕ
console = record {
  status_loading = false;
  last_command = "Status";
  output_data = [];
  selected_output_host = none;
  status_panel_open = false;
  edge_colors = [];
  show_query_dns_modal = false;
  dns_name = "";
  dns_query_type = "A";
  show_pprof_modal = false;
  pprof_type = profile;
  pprof_duration = "30";
  alerts = [];
}

abbrev pub app : App ℕ
app = record { selection = selection; console = console; stream = open_stream }

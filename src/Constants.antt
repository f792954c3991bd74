-- ===== src/Constants.antt =====
-- web-ui/src/constants.ts: the numbers and texts that the hooks and the app read. Lengths are in
-- pixels, times in milliseconds.
use tsymbiote.Prelude.{ℕ, String, List, [], ◌∷◌}

-- PANEL_CONFIG.MIN_HEIGHT
abbrev pub min_height : ℕ
min_height = 180

-- PANEL_CONFIG.MIN_VIEWPORT_MARGIN
abbrev pub min_viewport_margin : ℕ
min_viewport_margin = 100

-- WEBSOCKET_CONFIG
abbrev pub ping_interval_ms : ℕ
ping_interval_ms = 5000

abbrev pub pong_timeout_ms : ℕ
pong_timeout_ms = 10000

-- CAMERA_CONTROLS
abbrev pub pan_speed : ℕ
pan_speed = 3

abbrev pub default_layout : String
default_layout = "treeTd3d"

-- The `value` of each entry of LAYOUT_OPTIONS.
abbrev pub layout_options : List String
layout_options =
    "forceDirected2d" ∷ "forceDirected3d" ∷ "circular2d" ∷ "concentric2d" ∷ "concentric3d"
    ∷ "treeTd2d" ∷ "treeTd3d" ∷ "treeLr2d" ∷ "treeLr3d" ∷ "radialOut2d" ∷ "radialOut3d"
    ∷ "hierarchicalTd" ∷ "hierarchicalLr" ∷ "nooverlap" ∷ "forceatlas2" ∷ []

-- LAYOUT_OPTIONS, the label of each value
abbrev pub layout_labels : List (String × String)
layout_labels =
    ("forceDirected2d", "Force Directed 2D")
    ∷ ("forceDirected3d", "Force Directed 3D")
    ∷ ("circular2d", "Circular 2D")
    ∷ ("concentric2d", "Concentric 2D")
    ∷ ("concentric3d", "Concentric 3D")
    ∷ ("treeTd2d", "Tree Top-Down 2D")
    ∷ ("treeTd3d", "Tree Top-Down 3D")
    ∷ ("treeLr2d", "Tree Left-Right 2D")
    ∷ ("treeLr3d", "Tree Left-Right 3D")
    ∷ ("radialOut2d", "Radial Out 2D")
    ∷ ("radialOut3d", "Radial Out 3D")
    ∷ ("hierarchicalTd", "Hierarchical Top-Down")
    ∷ ("hierarchicalLr", "Hierarchical Left-Right")
    ∷ ("nooverlap", "No Overlap")
    ∷ ("forceatlas2", "Force Atlas 2")
    ∷ []

-- NODE_COLORS
abbrev pub node_color_default : String
node_color_default = "#7CA0F4"

abbrev pub node_color_offline : String
node_color_offline = "#6B7280"

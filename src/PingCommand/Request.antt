-- ===== src/PingCommand/Request.antt =====
-- What a ping asks for, how it ends, and how it colours the edges.
use tsymbiote.Prelude.{
  ℕ, ◌≤◌, String, ◌≡◌, refl, ap, ◌∙◌, true, false, not, ◌&&◌, ◌||◌, Option, none, some, List, [],
  ◌∷◌, arith, ◌==◌, or_else, All, map,
}
use tsymbiote.Prelude.JsSet.{has, from_list, has-from_list, IsUnique}
use tsymbiote.Prelude.JsSet.Filter.{has-filter}
use tsymbiote.Prelude.Dict.{Dict, get, keys}
use tsymbiote.Prelude.Dict.Keys.{put-IsUnique, get-spread}
use tsymbiote.Api.{Outcome, returned, thrown, Body, array, other, PingInput}
use tsymbiote.Console.{App, begin, show_results, online_selected_hosts}
use tsymbiote.Dialogs.Duration.{Parsed, nan, int}
use tsymbiote.Peers.{Edge, is_online, filter_online, has_edge}
use tsymbiote.Ping.{PingResult, new_edge_colors, edge_id, color_edge, result_color}
use tsymbiote.Ping.Combinations.{has_pair-get_targeted_combinations}
use tsymbiote.Ping.Grouping.{asks-host_targets_map}
use tsymbiote.Ping.Results.{asks, latest_color, get-new_edge_colors}
use tsymbiote.PingCommand.{
  PingSettings, set_ping_count, set_ping_delay, ping_targets, ping_input, finish_ping, fetch_ping,
  DrawnEdge, truthy, filtered_edges,
}
use tsymbiote.Stream.{cancel_streaming}

color_edge-IsUnique :
    (d : Dict String) (i : String) (o : Option String)
    → IsUnique (keys d)
    → IsUnique (keys (color_edge d i o))
unfolding color_edge
color_edge-IsUnique d i none u = u
color_edge-IsUnique d i (some c) u = put-IsUnique d i c u

new_edge_colors-IsUnique :
    (d : Dict String) (rs : List PingResult)
    → IsUnique (keys d)
    → IsUnique (keys (new_edge_colors d rs))
unfolding new_edge_colors
new_edge_colors-IsUnique d [] u = u
new_edge_colors-IsUnique d (r ∷ rs) u =
    new_edge_colors-IsUnique (color_edge d (edge_id r.host r.target) (result_color r)) rs
      (color_edge-IsUnique d (edge_id r.host r.target) (result_color r) u)

module _ {T : Type 0} where
  has-online_selected_hosts :
      (s : App T) (a : String)
      → has (online_selected_hosts s) a
        ≡ (is_online s.selection.nodes a && has s.selection.selected_hosts a)
  unfolding online_selected_hosts filter_online
  has-online_selected_hosts s a =
      has-filter (is_online s.selection.nodes) s.selection.selected_hosts a

  has-online :
      (s : App T) (a : String)
      → has (filter_online s.selection.nodes s.selection.selected_targets) a
        ≡ (is_online s.selection.nodes a && has s.selection.selected_targets a)
  unfolding filter_online
  has-online s a = has-filter (is_online s.selection.nodes) s.selection.selected_targets a

  -- A ping asks a host to ping a peer exactly if the host is selected and not offline, there is an
  -- edge from it to the peer, and the peer is not offline and is a selected target or another
  -- selected host.
  pub asks-ping_targets :
      (s : App T) (h p : String)
      → asks (ping_targets s) h p ≡ (
          (is_online s.selection.nodes h && has s.selection.selected_hosts h)
          && (has_edge s.selection.edges h p
              && (is_online s.selection.nodes p
                  && (has s.selection.selected_targets p
                      || (has s.selection.selected_hosts p && not (p == h))))))
  unfolding ping_targets
  asks-ping_targets s h p =
      asks-host_targets_map _ h p
      ∙ has_pair-get_targeted_combinations (from_list (online_selected_hosts s))
          (from_list (filter_online s.selection.nodes s.selection.selected_targets))
          s.selection.edges h p
      ∙ (ground (
        arith,
        has-from_list (online_selected_hosts s) h,
        has-from_list (online_selected_hosts s) p,
        has-from_list (filter_online s.selection.nodes s.selection.selected_targets) p,
        has-online_selected_hosts s h,
        has-online_selected_hosts s p,
        has-online s p,
      ))

  -- However a ping ends, it is no longer loading, "Ping" is the last command, the stream was
  -- cancelled without a message, the panel is open and the selection is as it was.
  pub fetch_ping_ends :
      (p : PingSettings) (api : PingInput → Outcome (Body PingResult)) (s : App T)
      → ((fetch_ping p api s).console.status_loading ≡ false)
        × ((fetch_ping p api s).console.last_command ≡ "Ping")
        × ((fetch_ping p api s).stream ≡ cancel_streaming false s.stream)
        × ((fetch_ping p api s).console.status_panel_open ≡ true)
        × ((fetch_ping p api s).selection ≡ s.selection)
  unfolding fetch_ping begin show_results
  fetch_ping_ends p api s = ends (api (ping_input p s))
    where
      ends :
          (o : Outcome (Body PingResult))
          → ((finish_ping (ping_targets s) o (begin "Ping" s)).console.status_loading ≡ false)
            × ((finish_ping (ping_targets s) o (begin "Ping" s)).console.last_command ≡ "Ping")
            × ((finish_ping (ping_targets s) o (begin "Ping" s)).stream
                ≡ cancel_streaming false s.stream)
            × ((finish_ping (ping_targets s) o (begin "Ping" s)).console.status_panel_open ≡ true)
            × ((finish_ping (ping_targets s) o (begin "Ping" s)).selection ≡ s.selection)
      ends (returned (array rs)) = (refl, refl, refl, refl, refl)
      ends (returned other) = (refl, refl, refl, refl, refl)
      ends (thrown m) = (refl, refl, refl, refl, refl)

  -- An answer gives each key of the edge colours the colour of its last item with entries for that
  -- key; a key without one keeps the colour of earlier pings.
  finish_ping_colors :
      (asked : Dict (List String)) (rs : List PingResult) (s : App T) (i : String)
      → get (finish_ping asked (returned (array rs)) s).console.edge_colors i
        ≡ or_else (latest_color rs i) (get s.console.edge_colors i)
  unfolding finish_ping show_results keys
  finish_ping_colors asked rs s i =
      get-spread s.console.edge_colors (new_edge_colors [] rs) i (new_edge_colors-IsUnique [] rs tt)
      ∙ ap (λ o. or_else o (get s.console.edge_colors i)) (get-new_edge_colors rs i)

-- How an edge is drawn after an answer, given the colours of before.
abbrev pub IsColored : List PingResult → Dict String → DrawnEdge → Type 0
IsColored rs colors d =
    let key = edge_id d.edge.source d.edge.target in
    d.fill ≡ truthy (or_else (latest_color rs key) (get colors key))

map-IsColored :
    (rs : List PingResult) (before after : Dict String) (es : List Edge)
    → ((i : String) → get after i ≡ or_else (latest_color rs i) (get before i))
    → All
        (IsColored rs before)
        (map (λ e. record { edge = e; fill = truthy (get after (edge_id e.source e.target)) }) es)
map-IsColored rs before after [] h = tt
map-IsColored rs before after (e ∷ es) h =
    (rw (h (edge_id e.source e.target)) refl, map-IsColored rs before after es h)

-- After an answer every edge that the graph draws has the colour of the last item with entries whose
-- host and target, joined by a hyphen, are the edge's source and target joined by one; where there is no
-- such item it keeps its colour. So where names contain hyphens, an item of one edge can colour another.
pub finish_ping-filtered_edges :
    {T : Type 0} (asked : Dict (List String)) (rs : List PingResult) (s : App T)
    → let t = finish_ping asked (returned (array rs)) s in
      All (IsColored rs s.console.edge_colors) (filtered_edges t.selection t.console.edge_colors)
unfolding filtered_edges
finish_ping-filtered_edges asked rs s =
    map-IsColored rs s.console.edge_colors _ _ (finish_ping_colors asked rs s)

-- Whatever is typed into the settings, the count becomes one from 1 to 20, and the delay at most 2000
-- milliseconds; a number in its range is taken as it is.
ping_settings_in_range :
    (typed : Parsed) (p : PingSettings)
    → (1 ≤ (set_ping_count typed p).ping_count)
      × ((set_ping_count typed p).ping_count ≤ 20)
      × ((set_ping_delay typed p).ping_delay ≤ 2000)
      × ((n : ℕ) → typed ≡ int false n → 1 ≤ n → n ≤ 20 → (set_ping_count typed p).ping_count ≡ n)
      × ((n : ℕ) → typed ≡ int false n → n ≤ 2000 → (set_ping_delay typed p).ping_delay ≡ n)
unfolding set_ping_count set_ping_delay
ping_settings_in_range nan p = ground arith
ping_settings_in_range (int true k) p = ground arith
ping_settings_in_range (int false k) p = ground arith

-- ===== src/Ping/Results.antt =====
-- What the outputs and the edge colours hold after an answer, or after a failure.
use tsymbiote.Prelude.{
  String, ◌+++◌, ◌≡◌, refl, ◌∙◌, inl, inr, Bool, false, ◌&&◌, ◌||◌, Option, none, some, List, [],
  ◌∷◌, arith, ◌==◌, eq_iff, if◌then◌else◌, Bool-cases, or_else,
}
use text.Mathlib.TextLemmas.{append_assoc}
use tsymbiote.Prelude.JsSet.{has}
use tsymbiote.Prelude.Dict.{Dict, get, put, get-put}
use tsymbiote.Ping.{
  PingResult, PingCell, answered, ping_error, edge_id, or_none, store_cell, collect_ping,
  result_color, color_edge, new_edge_colors, fail_targets, fail_ping,
}

-- What the output shows for a target of a host.
unfoldable pub cell : Dict (Dict PingCell) → String → String → Option PingCell
cell d h t = get (or_none (get d h)) t

cell-store_cell :
    (d : Dict (Dict PingCell)) (h t : String) (c : PingCell) (h' t' : String)
    → cell (store_cell d h t c) h' t' ≡ (if (h == h') && (t == t') then some c else cell d h' t')
unfolding cell store_cell
cell-store_cell d h t c h' t' =
    rw (get-put d h h' (put (or_none (get d h)) t c)) (elim (Bool-cases (h == h')) [
      | inl e ↦ rw e (rw (get-put (or_none (get d h)) t t' c) (rw ((eq_iff h h').0 e)))
      | inr e ↦ rw e
    ])

-- The cell of the last result for a host and a target.
unfoldable pub latest : List PingResult → String → String → Option PingCell
latest [] h t = none
latest (r ∷ rs) h t = elim (latest rs h t) [
  | some c ↦ some c
  | none ↦ if (r.host == h) && (r.target == t) then some (answered r.results) else none
]

cell-collect_ping :
    (d : Dict (Dict PingCell)) (rs : List PingResult) (h t : String)
    → cell (collect_ping d rs) h t ≡ or_else (latest rs h t) (cell d h t)
unfolding collect_ping latest
cell-collect_ping d [] h t = refl
cell-collect_ping d (r ∷ rs) h t =
    cell-collect_ping (store_cell d r.host r.target (answered r.results)) rs h t
    ∙ rw (cell-store_cell d r.host r.target (answered r.results) h t) (ground arith)

-- After an answer the output holds, for each host and target, the results of the last item that
-- names them, and nothing for a pair that no item names.
cell-collect_ping_nil :
    (rs : List PingResult) (h t : String) → cell (collect_ping [] rs) h t ≡ latest rs h t
cell-collect_ping_nil rs h t = cell-collect_ping [] rs h t ∙ (unfold cell get in ground arith)

-- The colour of the last item for an edge that has any entry.
unfoldable pub latest_color : List PingResult → String → Option String
latest_color [] i = none
latest_color (r ∷ rs) i = elim (latest_color rs i) [
  | some c ↦ some c
  | none ↦ if edge_id r.host r.target == i then result_color r else none
]

get-color_edge :
    (d : Dict String) (j : String) (o : Option String) (i : String)
    → get (color_edge d j o) i ≡ or_else (if j == i then o else none) (get d i)
unfolding color_edge
get-color_edge d j none i = ground arith
get-color_edge d j (some c) i = rw (get-put d j i c) (ground arith)

get-new_edge_colors_from :
    (d : Dict String) (rs : List PingResult) (i : String)
    → get (new_edge_colors d rs) i ≡ or_else (latest_color rs i) (get d i)
unfolding new_edge_colors latest_color
get-new_edge_colors_from d [] i = refl
get-new_edge_colors_from d (r ∷ rs) i =
    get-new_edge_colors_from (color_edge d (edge_id r.host r.target) (result_color r)) rs i
    ∙ rw (get-color_edge d (edge_id r.host r.target) (result_color r) i) (ground arith)

-- A ping colours an edge by the last entry of the last item with entries for that edge, and leaves
-- the others uncoloured.
pub get-new_edge_colors :
    (rs : List PingResult) (i : String) → get (new_edge_colors [] rs) i ≡ latest_color rs i
get-new_edge_colors rs i = get-new_edge_colors_from [] rs i ∙ (unfold get in ground arith)

-- The request asks the host to ping the target.
unfoldable pub asks : Dict (List String) → String → String → Bool
unfolding has
asks [] h t = false
asks ((k, ts) ∷ m) h t = ((k == h) && has ts t) || asks m h t

cell-fail_targets :
    (msg k : String) (ts : List String) (d : Dict (Dict PingCell)) (h t : String)
    → cell (fail_targets msg k ts d) h t
      ≡ (if (k == h) && has ts t then some (ping_error msg) else cell d h t)
unfolding fail_targets has
cell-fail_targets msg k [] d h t = ground arith
cell-fail_targets msg k (x ∷ ts) d h t =
    cell-fail_targets msg k ts (store_cell d k x (ping_error msg)) h t
    ∙ rw (cell-store_cell d k x (ping_error msg) h t) (ground arith)

cell-fail_ping_from :
    (msg : String) (m : Dict (List String)) (d : Dict (Dict PingCell)) (h t : String)
    → cell (fail_ping msg m d) h t ≡ (if asks m h t then some (ping_error msg) else cell d h t)
unfolding fail_ping asks
cell-fail_ping_from msg [] d h t = refl
cell-fail_ping_from msg ((k, ts) ∷ m) d h t =
    cell-fail_ping_from msg m (fail_targets msg k ts d) h t
    ∙ rw (cell-fail_targets msg k ts d h t) (ground arith)

-- When the request fails, exactly the pairs that it asked for show the error.
cell-fail_ping :
    (msg : String) (m : Dict (List String)) (h t : String)
    → cell (fail_ping msg m []) h t ≡ (if asks m h t then some (ping_error msg) else none)
cell-fail_ping msg m h t = cell-fail_ping_from msg m [] h t ∙ (unfold cell get in ground arith)

-- Two different edges have one id, and so one colour, whenever a hyphen can be read as part of
-- either end.
pub edge_id_collision : (a b c : String) → edge_id (a +++ "-" +++ b) c ≡ edge_id a (b +++ "-" +++ c)
unfolding edge_id
edge_id_collision a b c = simp append_assoc

-- ===== src/Api/Url.antt =====
-- getStreamWebSocketUrl of web-ui/src/api.ts. encodeURIComponent is a parameter.
use Prim.Native.Char.{code}
use text.Mathlib.TextLemmas.{nil-append, cons-append, append_assoc}
use tsymbiote.Prelude.{
  String, ◌+++◌, Option, none, some, List, ◌==◌, nat_eq, if◌then◌else◌, Bool, true, false,
  false≢true, ◌≡◌, refl, ap, ◌∙◌, arith,
}
use tsymbiote.Api.{Location, get_api_base_url}
use tsymbiote.Stream.Format.{StreamType, logs, bus_events, join}

-- What follows a prefix, if the text begins with it.
unfoldable pub after_prefix : String → String → Option String
after_prefix String.[] s = some s
after_prefix (String.◌∷◌ c p) String.[] = none
after_prefix (String.◌∷◌ c p) (String.◌∷◌ d s) =
    let rest = after_prefix p s in if nat_eq (code c) (code d) then rest else none

abbrev scheme_or : String → Option String → String → String
scheme_or scheme (some rest) other = scheme +++ rest
scheme_or scheme none other = other

-- text.replace(/^https?:/, scheme)
unfoldable pub replace_scheme : String → String → String
unfolding after_prefix
replace_scheme text scheme =
    scheme_or scheme (after_prefix "https:" text)
      (scheme_or scheme (after_prefix "http:" text) text)

abbrev pub stream_name : StreamType → String
stream_name logs = "Logs"
stream_name bus_events = "BusEvents"

-- getStreamWebSocketUrl
unfoldable pub get_stream_websocket_url :
    (String → String) → Location → StreamType → List String → String
unfolding replace_scheme get_api_base_url join
get_stream_websocket_url encode l kind host_ids =
    replace_scheme (get_api_base_url l) (if l.protocol == "https:" then "wss:" else "ws:")
    +++ "/api/"
    +++ stream_name kind
    +++ "?hosts="
    +++ encode (join "," host_ids)

-- The host and the port that the page talks to, after two slashes.
abbrev pub authority : Location → String
authority l = if l.prod then "//" +++ l.host else "//" +++ l.hostname +++ ":3621"

-- The texts differ at a place that both have.
clash : String → String → Bool
clash String.[] q = false
clash (String.◌∷◌ c p) String.[] = false
clash (String.◌∷◌ c p) (String.◌∷◌ d q) = if nat_eq (code c) (code d) then clash p q else true

after_prefix-append : (p s : String) → after_prefix p (p +++ s) ≡ some s
unfolding after_prefix
after_prefix-append String.[] s = ap some (nil-append s)
after_prefix-append (String.◌∷◌ c p) s =
    ap (after_prefix (String.◌∷◌ c p)) (cons-append c p s) ∙ ground (arith, after_prefix-append p s)

after_prefix-clash : (p q s : String) → clash p q ≡ true → after_prefix p (q +++ s) ≡ none
unfolding after_prefix clash
after_prefix-clash String.[] q s h = absurd (false≢true h)
after_prefix-clash (String.◌∷◌ c p) String.[] s h = absurd (false≢true h)
after_prefix-clash (String.◌∷◌ c p) (String.◌∷◌ d q) s h =
    ap (after_prefix (String.◌∷◌ c p)) (cons-append d q s)
    ∙ ground (arith, h, after_prefix-clash p q s)

secure : (r : String) → replace_scheme ("https:" +++ r) "wss:" ≡ "wss:" +++ r
unfolding replace_scheme
secure r =
    ap
      (λ o.
        scheme_or "wss:" o
          (scheme_or "wss:" (after_prefix "http:" ("https:" +++ r)) ("https:" +++ r)))
      (after_prefix-append "https:" r)

schemes_differ : clash "https:" "http:" ≡ true
unfolding clash
schemes_differ = refl

plain : (r : String) → replace_scheme ("http:" +++ r) "ws:" ≡ "ws:" +++ r
unfolding replace_scheme
plain r =
    ap
      (λ o.
        scheme_or "ws:" o (scheme_or "ws:" (after_prefix "http:" ("http:" +++ r)) ("http:" +++ r)))
      (after_prefix-clash "https:" "http:" r schemes_differ)
    ∙ ap (λ o. scheme_or "ws:" o ("http:" +++ r)) (after_prefix-append "http:" r)

secure_base :
    (prod : Bool) (h n : String)
    → replace_scheme
        (if prod then "https:" +++ "//" +++ h else "https:" +++ "//" +++ n +++ ":3621")
        "wss:"
      ≡ "wss:" +++ (if prod then "//" +++ h else "//" +++ n +++ ":3621")
secure_base true h n = secure ("//" +++ h)
secure_base false h n = secure ("//" +++ n +++ ":3621")

plain_base :
    (prod : Bool) (h n : String)
    → replace_scheme
        (if prod then "http:" +++ "//" +++ h else "http:" +++ "//" +++ n +++ ":3621")
        "ws:"
      ≡ "ws:" +++ (if prod then "//" +++ h else "//" +++ n +++ ":3621")
plain_base true h n = plain ("//" +++ h)
plain_base false h n = plain ("//" +++ n +++ ":3621")

-- A stream goes to the host that the page talks to, with the scheme wss: where the page has https:, and
-- ws: where it has http:.
get_stream_websocket_url_scheme :
    (encode : String → String) (l : Location) (kind : StreamType) (host_ids : List String)
    → (get_stream_websocket_url encode (record l { protocol = "https:" }) kind host_ids
        ≡ "wss:"
          +++ authority l
          +++ "/api/"
          +++ stream_name kind
          +++ "?hosts="
          +++ encode (join "," host_ids))
      × (get_stream_websocket_url encode (record l { protocol = "http:" }) kind host_ids
          ≡ "ws:"
            +++ authority l
            +++ "/api/"
            +++ stream_name kind
            +++ "?hosts="
            +++ encode (join "," host_ids))
unfolding get_stream_websocket_url get_api_base_url
get_stream_websocket_url_scheme encode l kind host_ids = (
  ap (λ t. t +++ "/api/" +++ stream_name kind +++ "?hosts=" +++ encode (join "," host_ids))
        (secure_base l.prod l.host l.hostname)
      ∙ append_assoc "wss:" (authority l) _,
  ap (λ t. t +++ "/api/" +++ stream_name kind +++ "?hosts=" +++ encode (join "," host_ids))
        (plain_base l.prod l.host l.hostname)
      ∙ append_assoc "ws:" (authority l) _,
)

-- ===== src/Results/ServeConfigView.antt =====
-- ServeConfigResultsContent
use tsymbiote.Prelude.{ℕ, zero, suc, String, ◌+++◌, ◌||◌, none, filter, length}
use tsymbiote.Js.{Js, string, whole, field, truthy, entries, has_keys}
use tsymbiote.Js.Jsx.{
  Ui, heading, label, text, badge, show_one, ◌<>◌, need, Texts, child, when, when_keys, each_entry,
}
use tsymbiote.Results.{config_body}

-- s.substring(0, n)
unfoldable pub substring_to : ℕ → String → String
substring_to zero s = ""
substring_to (suc n) String.[] = ""
substring_to (suc n) (String.◌∷◌ c s) = String.◌∷◌ c (substring_to n s)

-- ETag: {data.ETag.substring(0, 16)}...; only a text has `substring`
unfoldable pub etag : Js → Ui
unfolding substring_to
etag (string s) = show_one (text ("ETag: " +++ substring_to 16 s +++ "..."))
etag x = none

module _ (t : Texts) where
  -- A text in grey with a value
  unfoldable pub labelled : String → Js → Ui
  labelled l x = when t x (show_one (label l) <> child t x)

  unfoldable pub tcp_card : String → Js → Ui
  unfolding labelled
  tcp_card port h =
      show_one (badge "bg-blue-600")
      <> show_one (text (":" +++ port))
      <> need h (
          when t (field h "HTTPS") (show_one (badge "bg-green-600") <> show_one (text "HTTPS"))
          <> when t (field h "HTTP") (show_one (badge "bg-yellow-600") <> show_one (text "HTTP"))
          <> labelled "Forward: " (field h "TCPForward")
          <> labelled "TLS: " (field h "TerminateTLS"))

  unfoldable pub mount_card : String → Js → Ui
  unfolding labelled
  mount_card mount h =
      child t (string mount)
      <> need h (
          labelled "Proxy: " (field h "Proxy")
          <> labelled "Path: " (field h "Path")
          <> labelled "Text: " (field h "Text"))

  unfoldable pub web_card : String → Js → Ui
  unfolding mount_card
  web_card host_port w =
      show_one (badge "bg-purple-600")
      <> child t (string host_port)
      <> need w
          (when t (field w "Handlers") (each_entry t (entries (field w "Handlers")) mount_card))

  unfoldable pub key_pill : String → String → Js → Ui
  key_pill color k v = show_one (badge color) <> child t (string k)

  unfoldable pub funnel_pills : Js → Ui
  unfolding key_pill
  funnel_pills x = when_keys t x (
      show_one (heading "Funnel Enabled")
      <> each_entry t (filter (λ e. truthy e.1) (entries x)) (key_pill "bg-orange-600"))

  unfoldable pub sessions : Js → Ui
  unfolding key_pill
  sessions x = when_keys t x (
      show_one (heading "Foreground Sessions")
      <> show_one (text "(")
      <> child t (whole (length (entries x)))
      <> show_one (text ")")
      <> each_entry t (entries x) (key_pill "bg-gray-600"))

  unfoldable pub keyed : String → (String → Js → Ui) → Js → Ui
  keyed title f x = when_keys t x (show_one (heading title) <> each_entry t (entries x) f)

  unfoldable pub serve_sections : Js → Ui
  unfolding keyed tcp_card web_card key_pill funnel_pills sessions
  serve_sections d =
      keyed "TCP Handlers" tcp_card (field d "TCP")
      <> keyed "Web Handlers" web_card (field d "Web")
      <> keyed "Services" (key_pill "bg-teal-600") (field d "Services")
      <> funnel_pills (field d "AllowFunnel")
      <> sessions (field d "Foreground")

  unfoldable pub serve_config_view : Js → Ui
  unfolding etag config_body has_keys serve_sections
  serve_config_view d = need d (
      show_one (heading "Serve Configuration")
      <> when t (field d "ETag") (etag (field d "ETag"))
      <> config_body t "No serve configuration on this host."
          (has_keys (field d "TCP")
            || has_keys (field d "Web")
            || has_keys (field d "Services")
            || has_keys (field d "AllowFunnel")
            || has_keys (field d "Foreground"))
          d (serve_sections d))

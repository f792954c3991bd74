-- ===== src/Results/AppConnView.antt =====
-- AppConnRoutesResultsContent
use tsymbiote.Prelude.{String, ◌||◌, length}
use tsymbiote.Js.{Js, string, whole, field, entries, has_some, has_keys}
use tsymbiote.Js.Jsx.{
  Ui, heading, text, badge, show_one, ◌<>◌, need, Texts, child, when_keys, map_each, each_entry,
}
use tsymbiote.Results.{pills, config_box}

module _ (t : Texts) where
  -- A domain with its addresses
  unfoldable pub domain_card : String → Js → Ui
  domain_card domain addrs =
      child t (string domain)
      <> map_each t addrs (λ addr. show_one (badge "bg-green-600") <> child t addr)

  -- A title with the number of entries
  unfoldable pub counted : String → Js → Ui
  counted title x =
      show_one (heading title)
      <> show_one (text "(")
      <> child t (whole (length (entries x)))
      <> show_one (text ")")

  unfoldable pub domains_box : Js → Ui
  unfolding domain_card counted
  domains_box x =
      when_keys t x (counted "Discovered Domains" x <> each_entry t (entries x) domain_card)

  unfoldable pub app_conn_routes_view : Js → Ui
  unfolding has_some has_keys config_box pills domains_box
  app_conn_routes_view d = need d (
      config_box t "App Connector Routes" "No app connector routes configured on this host."
        (has_some (field d "Control")
          || has_keys (field d "Domains")
          || has_some (field d "Wildcards"))
        d
        (pills t "Control Routes (ACL)" "bg-blue-600" (field d "Control")
          <> pills t "Wildcard Domains" "bg-purple-600" (field d "Wildcards")
          <> domains_box (field d "Domains")))

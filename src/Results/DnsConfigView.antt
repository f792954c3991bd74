-- ===== src/Results/DnsConfigView.antt =====
-- DNSConfigResultsContent
use tsymbiote.Prelude.{◌||◌}
use tsymbiote.Js.{Js, field, has_some}
use tsymbiote.Js.Jsx.{Ui, ◌<>◌, need, Texts}
use tsymbiote.Results.{pills, config_box}

module _ (t : Texts) where
  unfoldable pub dns_config_view : Js → Ui
  unfolding has_some config_box pills
  dns_config_view d = need d (
      config_box t "DNS Configuration" "No DNS configuration available for this host."
        (has_some (field d "Nameservers")
          || has_some (field d "SearchDomains")
          || has_some (field d "MatchDomains"))
        d
        (pills t "Nameservers" "bg-blue-600" (field d "Nameservers")
          <> pills t "Search Domains" "bg-green-600" (field d "SearchDomains")
          <> pills t "Match Domains" "bg-purple-600" (field d "MatchDomains")))

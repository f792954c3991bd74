-- ===== src/Results/DnsQueryView.antt =====
-- QueryDNSResultsContent
use tsymbiote.Prelude.{◌+++◌, not, none}
use tsymbiote.Js.{Js, string, field, is_undefined}
use tsymbiote.Js.Jsx.{
  Ui, heading, text, badge, show_one, ◌<>◌, show_if, need, Texts, child, when, when_some, map_each,
}
use tsymbiote.Widgets.{field_row, list_section}
use tsymbiote.OutputPanel.{get_response_code_color}

-- The code and its colour; `rcode.includes` throws where the code is not a text. (A list, which has
-- `includes` too, is left out.)
unfoldable pub response_code : Js → Ui
unfolding get_response_code_color
response_code (string s) = show_one (badge (get_response_code_color s)) <> show_one (text s)
response_code x = none

module _ (t : Texts) where
  unfoldable pub query_details : Js → Ui
  query_details h =
      when t (field h "name") (field_row t "Name" (field h "name"))
      <> when t (field h "type") (field_row t "Type" (field h "type"))
      <> when t (field h "class") (field_row t "Class" (field h "class"))
      <> show_if (not (is_undefined (field h "ttl")))
          (field_row t "TTL" (string (t.string_text (field h "ttl") +++ "s")))

  -- The answer d with its header h
  unfoldable pub answer_box : Js → Js → Ui
  unfolding response_code query_details
  answer_box d h =
      show_one (heading "DNS Query Result")
      <> when t (field h "responseCode") (response_code (field h "responseCode"))
      <> query_details h
      <> when_some t (field d "responses")
          (show_one (heading "Responses") <> map_each t (field d "responses") (λ r. child t r))
      <> when_some t (field d "resolvers") (list_section t "Resolvers" (field d "resolvers"))

  unfoldable pub query_dns_view : Js → Ui
  unfolding answer_box
  query_dns_view d = need d (
      when t (field d "error") (show_one (heading "Error") <> child t (field d "error"))
      <> when t (field d "header") (answer_box d (field d "header")))

-- ===== src/Results.antt =====
-- web-ui/src/components/CommandOutputsPanel.tsx: how the result of each command is shown. This file
-- has what the views share, and each child one view.
pub mod PrefsView
pub mod DnsConfigView
pub mod DriveSharesView
pub mod AppConnView
pub mod ServeConfigView
pub mod PingView
pub mod DnsQueryView
pub mod StatusView
pub mod GoroutinesView
pub mod Content
pub mod Exact
pub mod Missing
pub mod Types
pub mod PeerTypes
pub mod Rendered
use tsymbiote.Prelude.{String, not, ◌&&◌, Bool, if◌then◌else◌}
use tsymbiote.Js.{Js, field, truthy}
use tsymbiote.Js.Jsx.{
  Ui, heading, text, badge, when_some, map_each, image, show_one, ◌<>◌, Texts, child, when,
}

module _ (t : Texts) where
  -- if (data.error) return <div>{data.error}</div>
  unfoldable pub error_or_else : Js → Ui → Ui
  error_or_else d u = if truthy (field d "error") then child t (field d "error") else u

  -- The picture, the name and the login of a user
  unfoldable pub user_card : Js → Ui
  user_card u =
      when t (field u "ProfilePicURL")
        (show_one (image (field u "ProfilePicURL") (field u "DisplayName")))
      <> child t (field u "DisplayName")
      <> child t (field u "LoginName")

  -- The titled list of coloured items of the configuration views
  unfoldable pub pills : (title color : String) → Js → Ui
  pills title color x =
      when_some t x
        (show_one (heading title) <> map_each t x (λ v. show_one (badge color) <> child t v))

  -- The error of a configuration and, if there is neither any nor an error, a text
  unfoldable pub config_body : (none_text : String) → (has_any : Bool) → Js → Ui → Ui
  config_body none_text has_any d u =
      when t (field d "error") (child t (field d "error"))
      <> (if not has_any && not (truthy (field d "error")) then show_one (text none_text) else u)

  unfoldable pub config_box : (title none_text : String) → (has_any : Bool) → Js → Ui → Ui
  unfolding config_body
  config_box title none_text has_any d u =
      show_one (heading title) <> config_body none_text has_any d u

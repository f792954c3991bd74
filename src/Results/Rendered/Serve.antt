-- ===== src/Results/Rendered/Serve.antt =====
-- The view of a serve configuration.
use tsymbiote.Prelude.{String, ◌≡◌, refl, Bool, true, false≢true}
use tsymbiote.Js.{Js, undefined, null, bool, number, string, array, object, field, entries}
use tsymbiote.Js.Shapes.{is_plain, is_string, optional, or_null, record_of, object_fits}
use tsymbiote.Js.Declared.{
  text_field, declared, declared_or_null, there, object_fits-not_nullish, text-plain, whole-plain,
}
use tsymbiote.Js.Jsx.{Ui, Texts, when, each_entry}
use tsymbiote.Js.Returns.{
  Renders, Renders-some, <>-Renders, need-Renders, when-Renders_if, when_keys-Renders,
  each_entry-Renders, each_entry-Renders_all,
}
use tsymbiote.Widgets.Rendered.{rendering}
use tsymbiote.Results.Rendered.Parts.{config_body-Renders}
use tsymbiote.Results.ServeConfigView.{
  etag, labelled, tcp_card, mount_card, web_card, key_pill, funnel_pills, sessions, keyed,
  serve_sections, serve_config_view,
}
use tsymbiote.Results.Types.{
  tcp_port_handler_field, web_handler_field, web_server_config_field, serve_config_field,
}

etag-Renders : (x : Js) → is_string x ≡ true → Renders (etag x)
unfolding etag
etag-Renders undefined h = absurd (false≢true h)
etag-Renders null h = absurd (false≢true h)
etag-Renders (bool b) h = absurd (false≢true h)
etag-Renders (number n) h = absurd (false≢true h)
etag-Renders (string s) h = Renders-some _
etag-Renders (array xs) h = absurd (false≢true h)
etag-Renders (object ms) h = absurd (false≢true h)

module _ (t : Texts) where
  labelled-Renders : (l : String) (x : Js) → is_plain x ≡ true → Renders (labelled t l x)
  unfolding labelled
  labelled-Renders l x h = search rendering

  tcp_card-Renders :
      (port : String) (h : Js)
      → object_fits tcp_port_handler_field h ≡ true
      → Renders (tcp_card t port h)
  unfolding tcp_card tcp_port_handler_field
  tcp_card-Renders port h typed =
      let fits = there (object_fits tcp_port_handler_field) h typed in
      search
        (
          rendering,
          need-Renders,
          object_fits-not_nullish tcp_port_handler_field h,
          labelled-Renders,
          text_field tcp_port_handler_field h,
        )
        depth 20

  mount_card-Renders :
      (mount : String) (h : Js)
      → object_fits web_handler_field h ≡ true
      → Renders (mount_card t mount h)
  unfolding mount_card web_handler_field
  mount_card-Renders mount h typed =
      let fits = there (object_fits web_handler_field) h typed in
      search
        (
          rendering,
          need-Renders,
          object_fits-not_nullish web_handler_field h,
          labelled-Renders,
          text_field web_handler_field h,
          text-plain,
        )
        depth 20

  handlers-Renders :
      (w : Js)
      → object_fits web_server_config_field w ≡ true
      → Renders
          (when t (field w "Handlers") (each_entry t (entries (field w "Handlers")) (mount_card t)))
  unfolding web_server_config_field
  handlers-Renders w typed = when-Renders_if t (field w "Handlers") λ p.
      each_entry-Renders t (object_fits web_handler_field) (field w "Handlers")
        (declared web_server_config_field w (there _ w typed) "Handlers"
          (record_of (object_fits web_handler_field)) refl p)
        mount_card-Renders

  web_card-Renders :
      (host_port : String) (w : Js)
      → object_fits web_server_config_field w ≡ true
      → Renders (web_card t host_port w)
  unfolding web_card
  web_card-Renders host_port w typed =
      search
        (
          rendering,
          need-Renders,
          object_fits-not_nullish web_server_config_field w,
          handlers-Renders,
          text-plain,
        )
        depth 20

  key_pill-Renders : (color k : String) (v : Js) → Renders (key_pill t color k v)
  unfolding key_pill
  key_pill-Renders color k v = search (rendering, text-plain)

  funnel_pills-Renders : (x : Js) → Renders (funnel_pills t x)
  unfolding funnel_pills
  funnel_pills-Renders x = when_keys-Renders t x λ _.
      <>-Renders (Renders-some _) (each_entry-Renders_all t _ (key_pill-Renders "bg-orange-600"))

  sessions-Renders : (x : Js) → Renders (sessions t x)
  unfolding sessions
  sessions-Renders x =
      let pills = each_entry-Renders_all t (entries x) (key_pill-Renders "bg-gray-600") in
      when_keys-Renders t x (λ _. search (rendering, whole-plain) depth 12)

  services-Renders : (x : Js) → Renders (keyed t "Services" (key_pill t "bg-teal-600") x)
  unfolding keyed
  services-Renders x =
      when_keys-Renders t x λ _.
        <>-Renders (Renders-some _) (each_entry-Renders_all t _ (key_pill-Renders "bg-teal-600"))

  module _ (d : Js) (typed : optional (object_fits serve_config_field) d ≡ true) where
    keyed-Renders :
        (title k : String) (p : Js → Bool) (f : String → Js → Ui)
        → serve_config_field k ≡ optional (or_null (record_of p))
        → ((j : String) (x : Js) → p x ≡ true → Renders (f j x))
        → Renders (keyed t title f (field d k))
    unfolding keyed
    keyed-Renders title k p f e h = when_keys-Renders t (field d k) λ q.
        <>-Renders (Renders-some _) (
          each_entry-Renders t p (field d k)
            (declared_or_null serve_config_field d typed k (record_of p) e q) h)

    serve_sections-Renders : Renders (serve_sections t d)
    unfolding serve_sections serve_config_field
    serve_sections-Renders =
        let tcp =
          keyed-Renders "TCP Handlers" "TCP" (object_fits tcp_port_handler_field) (tcp_card t) refl
            tcp_card-Renders in
        let web =
          keyed-Renders "Web Handlers" "Web" (object_fits web_server_config_field) (web_card t) refl
            web_card-Renders in
        search (<>-Renders, services-Renders, funnel_pills-Renders, sessions-Renders)

  -- A serve configuration of the declared type is shown.
  pub serve_config_view-Renders :
      (d : Js)
      → object_fits serve_config_field d ≡ true
      → is_plain (field d "error") ≡ true
      → Renders (serve_config_view t d)
  unfolding serve_config_view serve_config_field
  serve_config_view-Renders d typed e =
      let fits = there (object_fits serve_config_field) d typed in
      let tag = when-Renders_if t (field d "ETag") (λ p.
        etag-Renders (field d "ETag")
          (declared serve_config_field d fits "ETag" is_string refl p)) in
      search
        (
          rendering,
          need-Renders,
          object_fits-not_nullish serve_config_field d,
          config_body-Renders t,
          serve_sections-Renders,
        )
        depth 12

-- ===== src/Stream/Texts.antt =====
-- What the stream shows for each host.
use tsymbiote.Prelude.{
  ℕ, String, ◌+++◌, ◌≡◌, refl, ◌∙◌, inl, inr, Bool, true, false, Option, none, some, List, [], ◌∷◌,
  arith, ◌==◌, eq_iff, if◌then◌else◌, Bool-cases,
}
use tsymbiote.Prelude.JsSet.{has, IsUnique}
use tsymbiote.Prelude.Dict.{Dict, get, put, get-put}
use tsymbiote.Stream.Format.{StreamType, Codec}
use tsymbiote.Stream.{
  Stream, open_now, or_blank, append_text, append_to_all, fill_from, fill, cancel_streaming,
  disconnect_message, connecting_message, start_stream, on_message, message_text, append_message,
}

pub get-append_text :
    (d : Dict String) (h t j : String)
    → get (append_text d h t) j ≡ (if h == j then some (or_blank (get d h) +++ t) else get d j)
unfolding append_text
get-append_text d h t j = get-put d h j (or_blank (get d h) +++ t)

-- Distinct hosts each get the text once, and no other entry changes.
pub get-append_to_all :
    (d : Dict String) (hs : List String) (t j : String)
    → IsUnique hs
    → get (append_to_all d hs t) j ≡ (if has hs j then some (or_blank (get d j) +++ t) else get d j)
unfolding append_to_all has
get-append_to_all d [] t j u = refl
get-append_to_all d (h ∷ hs) t j (new, u) =
    get-append_to_all (append_text d h t) hs t j u
    ∙ rw (get-append_text d h t j) (elim (Bool-cases (h == j)) [
      | inl e ↦ rw e (rw (← (eq_iff h j).0 e) (rw new))
      | inr e ↦ rw e
    ])

get-fill_from :
    (d : Dict String) (hs : List String) (t j : String)
    → get (fill_from d hs t) j ≡ (if has hs j then some t else get d j)
unfolding fill_from has
get-fill_from d [] t j = refl
get-fill_from d (h ∷ hs) t j =
    get-fill_from (put d h t) hs t j ∙ rw (get-put d h j t) (ground arith)

pub get-fill :
    (hs : List String) (t j : String) → get (fill hs t) j ≡ (if has hs j then some t else none)
unfolding fill
get-fill hs t j = get-fill_from [] hs t j ∙ (unfold get in refl)

-- Cancelling an open stream with a message appends the kind's disconnect message to the text of
-- each of its hosts, and to no other.
cancel_streaming_text :
    (s : Stream) (i : ℕ) (k : StreamType) (j : String)
    → s.ws ≡ some i
    → s.ready i ≡ open_now
    → s.stream_type ≡ some k
    → IsUnique s.host_ids
    → get (cancel_streaming true s).stream_data j ≡ (
        if has s.host_ids j
        then some (or_blank (get s.stream_data j) +++ disconnect_message k)
        else get s.stream_data j)
unfolding cancel_streaming
cancel_streaming_text s i k j w r t u =
    rw w (rw r (rw t (get-append_to_all s.stream_data s.host_ids (disconnect_message k) j u)))

-- A start on some host shows the connecting message for exactly its hosts, whatever was shown.
pub start_stream_text :
    (creates : Bool) (kind : StreamType) (h : String) (hs : List String) (s : Stream) (j : String)
    → get (start_stream creates kind (h ∷ hs) s).stream_data j
      ≡ (if has (h ∷ hs) j then some (connecting_message kind) else none)
unfolding start_stream
start_stream_text true kind h hs s j = get-fill (h ∷ hs) (connecting_message kind) j
start_stream_text false kind h hs s j = get-fill (h ∷ hs) (connecting_message kind) j

abbrev pub appended : Option (String × String) → Dict String → String → Option String
appended none d j = get d j
appended (some (h, t)) d j = if h == j then some (or_blank (get d j) +++ t) else get d j

get-append_message :
    (d : Dict String) (o : Option (String × String)) (j : String)
    → get (append_message d o) j ≡ appended o d j
get-append_message d none j = refl
get-append_message d (some (h, t)) j =
    rw (get-append_text d h t j)
      (elim (Bool-cases (h == j)) [ inl e ↦ rw e (rw ((eq_iff h j).0 e)) | inr e ↦ rw e ])

-- A message that is no pong adds its text behind what its host shows, if it gives any, and leaves
-- every other host as it was; a pong changes no text.
pub on_message_text :
    (c : Codec) (now i : ℕ) (text : String) (s : Stream) (j : String)
    → get (on_message c now i text s).stream_data j ≡ (
        if text == "pong"
        then get s.stream_data j
        else appended (message_text c (s.kind_of i) text) s.stream_data j)
unfolding on_message
on_message_text c now i text s j = elim (Bool-cases (text == "pong")) [
  | inl e ↦ rw e
  | inr e ↦ rw e (get-append_message s.stream_data (message_text c (s.kind_of i) text) j)
]

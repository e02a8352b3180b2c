-- ===== src/Downstream.antt =====
-- http_downstream.c: a connection of a client as a stream of events. The parser, http_parser.c, is
-- the list of the callbacks that it makes of the bytes received, and the callback `s_cb` is an
-- argument; what stands here as a stub in the file, the body and the response, changes nothing.
pub mod Types
pub mod Events
pub mod Fired
pub mod Delivered
pub mod Mixed
mod Tests
use h2_client_proxy.Base.{
  ℕ, ◌++◌, ◌||◌, ◌==◌, not, Bool, true, false, Option, none, some, List, [], ◌∷◌, if◌then◌else◌,
  Bytes,
}
use h2_client_proxy.Base.Int.{ℤ, pos, negsuc, ltb_ℤ}
use h2_client_proxy.Header.{
  Header, header_set_url, header_append_field, header_append_value, header_append_complete,
}
use h2_client_proxy.Ep.Types.{EpBase, assign, ep_read}
use h2_client_proxy.Ep.Timer.{ep_timer_new, ep_timer_add, ep_timer_free}
use h2_client_proxy.Ep.File.{ep_file_create, ep_file_detect}
use h2_client_proxy.EpBuf.{
  BufEvent, buf_read_event, buf_write_event, buf_error, ep_buf_create, ep_buf_enable,
}
use h2_client_proxy.Downstream.Types.{
  HttpDownstream, EventItem, Delivery, Downstreams, downstream_new, set_incb, set_events,
  set_header, put, event_new,
}

-- The user's callback `s_cb` with an event, the stream and its `args`; it may use the operations of the
-- stream.
abbrev pub Callback : Type 0
Callback = ℕ → ℕ → Option ℕ → Downstreams → Downstreams

-- The new item and its timer have the address `item`; `ms` is the time.
unfoldable pub http_upstream_queue_event : ℤ → ℕ → ℕ → ℕ → Downstreams → Downstreams
unfolding set_events
http_upstream_queue_event ms item id what w =
    let s = w.downstream_at id in
    let base1 = ep_timer_new item w.base in
    record w {
      item_at = assign w.item_at item (record { downstream = id; what = what });
      downstream_at = assign w.downstream_at id (set_events (item ∷ s.list_events) s);
      base = ep_timer_add ms item (pos 0) base1;
    }

-- `list_del` of an item; one that is in no list was freed, and is a crash.
unfoldable pub remove_item : ℕ → List ℕ → Option (List ℕ)
remove_item item [] = none
remove_item item (x ∷ xs) =
    let rest = remove_item item xs in
    if x == item then some xs else elim rest [ none ↦ none | some ys ↦ some (x ∷ ys) ]

-- `if(s_cb)`
unfoldable pub call_cb : Callback → EventItem → Downstreams → Downstreams
call_cb cb item w =
    let args = (w.downstream_at item.downstream).args in
    let called = record w {
      delivered =
          w.delivered
          ++ record { what = item.what; downstream = item.downstream; args = args } ∷ [];
    } in
    if w.has_cb then cb item.what item.downstream args called else w

unfoldable pub http_upstream_eventcb : Callback → ℕ → Downstreams → Option Downstreams
unfolding remove_item call_cb set_incb set_events
http_upstream_eventcb cb item w =
    let i = w.item_at item in
    let id = i.downstream in
    let w1 = put id (set_incb true (w.downstream_at id)) w in
    let w2 = call_cb cb i w1 in
    let w3 = put id (set_incb false (w2.downstream_at id)) w2 in
    elim (remove_item item (w3.downstream_at id).list_events) [
      | none ↦ none
      | some rest ↦ some (record (put id (set_events rest (w3.downstream_at id)) w3) {
        base = ep_timer_free item w3.base;
      })
    ]

-- A callback of the parser, with the address and the time of an item that is made in it.
pub data ParserCall : Type 0 where
  msg_begin message_complete : ParserCall
  url_complete header_field header_value body_part : Bytes → ParserCall
  headers_complete : ℤ → ℕ → ParserCall

-- The header of the stream after a callback; a failed assertion is none.
unfoldable pub on_header : (Header → Option Header) → ℕ → Downstreams → Option Downstreams
unfolding set_header
on_header f id w =
    let s = w.downstream_at id in
    elim (f s.request_header) [ none ↦ none | some h ↦ some (put id (set_header h s) w) ]

unfoldable pub http_downstream_headers_completecb : ℤ → ℕ → ℕ → Downstreams → Option Downstreams
unfolding on_header http_upstream_queue_event
http_downstream_headers_completecb ms item id w = elim (on_header header_append_complete id w) [
  | none ↦ none
  | some w' ↦ some (http_upstream_queue_event ms item id event_new w')
]

-- A callback of `htp_hooks` on the stream `id`.
unfoldable pub parser_call : ℕ → ParserCall → Downstreams → Option Downstreams
unfolding on_header http_downstream_headers_completecb
parser_call id msg_begin w = some w
parser_call id message_complete w = some w
parser_call id (url_complete url) w = on_header (λ h. some (header_set_url h url)) id w
parser_call id (header_field s) w = on_header (λ h. header_append_field h s) id w
parser_call id (header_value s) w = on_header (λ h. some (header_append_value h s)) id w
parser_call id (body_part s) w = some w
parser_call id (headers_complete ms item) w = http_downstream_headers_completecb ms item id w

unfoldable pub parser_calls : ℕ → List ParserCall → Downstreams → Option Downstreams
unfolding parser_call
parser_calls id [] w = some w
parser_calls id (p ∷ ps) w = elim (parser_call id p w) [
  | none ↦ none
  | some w' ↦ parser_calls id ps w'
]

-- `calls` is what the parser makes of the bytes that were read, none if there are none.
unfoldable pub http_upstream_clientcb :
    BufEvent → Option (List ParserCall) → ℕ → Downstreams → Option Downstreams
unfolding parser_calls
http_upstream_clientcb buf_read_event (some calls) id w = parser_calls id calls w
http_upstream_clientcb buf_read_event none id w = some w
http_upstream_clientcb buf_write_event calls id w = some w
http_upstream_clientcb buf_error calls id w = some w

-- The stream of a connection that was accepted, with the address `id`.
unfoldable pub http_upstream_acceptcb : ℕ → Downstreams → Downstreams
unfolding downstream_new
http_upstream_acceptcb id w = record w {
  downstream_at =
      assign w.downstream_at id
        (record downstream_new { client = ep_buf_enable ep_read ep_buf_create });
  list_downstreams = w.list_downstreams ++ id ∷ [];
}

unfoldable pub http_downstream_setargs : ℕ → Option ℕ → Downstreams → Downstreams
http_downstream_setargs id args w = put id (record (w.downstream_at id) { args = args }) w

-- `fd` is the descriptor that listens, none if it was not made or stays blocking; `file` is the
-- address of its file. With it whether -1 is returned.
unfoldable pub http_downstream_init : ℤ → Option ℕ → ℕ → EpBase → Downstreams → Downstreams × Bool
http_downstream_init ms none file base w = (record w { base = base; has_cb = false }, true)
http_downstream_init ms (some fd) file base w = (
  record w {
    base = ep_file_detect ms file ep_read (negsuc 0) (ep_file_create file fd base);
    file_listen = some file;
    has_cb = true;
  },
  false,
)

-- ===== src/Downstream/Types.antt =====
-- http_downstream.c: `struct http_downstream`, `struct event_item` and the variables of the file.
use h2_client_proxy.Base.{ℕ, Bool, true, false, Option, none, List, []}
use h2_client_proxy.Header.{Header, header_new}
use h2_client_proxy.EpBuf.{EpBuf, ep_buf_create}
use h2_client_proxy.Ep.Types.{EpBase, assign}
use h2_client_proxy.Ep.File.{ep_base_create}

-- DOWNSTREAM_EVENT_NEW
abbrev pub event_new : ℕ
event_new = 0

-- `client` is the buffer as EpBuf has it, with its descriptor as its owner sees it. `list_events` are
-- the addresses of the items, the last one that was queued first.
pub record HttpDownstream : Type 0 where
  pub client : EpBuf
  pub request_header : Header
  pub list_events : List ℕ
  pub args : Option ℕ
  pub is_close_pending : Bool
  pub is_incb : Bool
  pub is_response_complete : Bool

-- Its timer has the address of the item as well.
pub record EventItem : Type 0 where
  pub downstream : ℕ
  pub what : ℕ

-- A call of `s_cb`.
pub record Delivery : Type 0 where
  pub what : ℕ
  pub downstream : ℕ
  pub args : Option ℕ

-- `s_base`, the streams and items by their addresses, `s_list_downstreams`, whether `s_cb` is set,
-- `s_file_listen`, and the calls of `s_cb` in order.
pub record Downstreams : Type 0 where
  pub base : EpBase
  pub downstream_at : ℕ → HttpDownstream
  pub item_at : ℕ → EventItem
  pub list_downstreams : List ℕ
  pub has_cb : Bool
  pub file_listen : Option ℕ
  pub delivered : List Delivery

unfoldable pub downstream_new : HttpDownstream
downstream_new = record {
  client = ep_buf_create;
  request_header = header_new;
  list_events = [];
  args = none;
  is_close_pending = false;
  is_incb = false;
  is_response_complete = true;
}

unfoldable pub downstreams_empty : Downstreams
downstreams_empty = record {
  base = ep_base_create;
  downstream_at = λ _. downstream_new;
  item_at = λ _. record { downstream = 0; what = event_new };
  list_downstreams = [];
  has_cb = false;
  file_listen = none;
  delivered = [];
}

unfoldable pub set_incb : Bool → HttpDownstream → HttpDownstream
set_incb is_incb s = record s { is_incb = is_incb }

unfoldable pub set_events : List ℕ → HttpDownstream → HttpDownstream
set_events list_events s = record s { list_events = list_events }

unfoldable pub set_header : Header → HttpDownstream → HttpDownstream
set_header h s = record s { request_header = h }

abbrev pub put : ℕ → HttpDownstream → Downstreams → Downstreams
put id s w = record w { downstream_at = assign w.downstream_at id s }

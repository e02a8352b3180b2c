-- ===== src/Downstream/Tests.antt =====
-- Runs of http_downstream.c on one connection.
use h2_client_proxy.Base.{
  sym, ℕ, ◌+◌, ◌≡◌, refl, arith, true, some, List, [], ◌∷◌, length, Bytes, codes,
}
use h2_client_proxy.Base.Int.{pos}
use h2_client_proxy.Header.{header_new}
use h2_client_proxy.Header.Reassembly.{Pair}
use h2_client_proxy.Ep.Timer.{is_pending}
use h2_client_proxy.Ep.File.{ep_base_create}
use h2_client_proxy.Downstream.Types.{set_events, Downstreams, downstreams_empty, downstream_new}
use h2_client_proxy.Downstream.{
  Callback, http_upstream_queue_event, http_upstream_acceptcb, http_downstream_setargs,
  parser_calls,
}
use h2_client_proxy.Downstream.Events.{events_of, IsTimed, deliveries}
use h2_client_proxy.Downstream.Fired.{IsQuiet}
use h2_client_proxy.Downstream.Delivered.{
  queued_for, Event, queues, fires, run_all, run_all-deliveries,
}
use h2_client_proxy.Downstream.Mixed.{Request, requests_calls, header_of, waiting, requests_mixed}

-- One connection, the stream 0.
abbrev accepted : Downstreams
accepted = http_upstream_acceptcb 0 (record downstreams_empty { has_cb = true })

-- A callback that sets the `args` of the stream.
abbrev takes : Callback
takes what id args w = http_downstream_setargs id (some 1) w

takes-IsQuiet : IsQuiet takes
unfolding http_downstream_setargs
takes-IsQuiet = record {
  same_base = λ what id args w. refl;
  same_items = λ what id args w. refl;
  same_events = λ what id args w i. ground arith;
  same_delivered = λ what id args w. refl;
  same_cb = λ what id args w. refl;
}

accepted-IsTimed : IsTimed accepted
unfolding http_upstream_acceptcb downstreams_empty downstream_new
accepted-IsTimed = record {
  home = λ id item. ground arith;
  timed = λ id item. ground arith;
  distinct = λ id. ground arith;
}

abbrev two_steps : List Event
two_steps = queues (pos 0) 9 0 0 ∷ fires 9 ∷ []

run_all-deliveries_example :
    (w : Downstreams) × (run_all takes two_steps accepted ≡ some w)
    × IsTimed w
    × ((i : ℕ)
        → deliveries i w.delivered + length (events_of w i)
          ≡ deliveries i accepted.delivered
            + length (events_of accepted i)
            + queued_for i two_steps)
unfolding http_upstream_acceptcb downstreams_empty downstream_new is_pending ep_base_create
    http_upstream_queue_event set_events
run_all-deliveries_example =
    run_all-deliveries takes takes-IsQuiet two_steps accepted refl accepted-IsTimed (
      record { no_item = λ id. ground arith; no_timer = refl },
      λ w e.
          let same : http_upstream_queue_event (pos 0) 9 0 0 accepted ≡ w = cc in
          (rw (sym same) refl, (λ w' e'. tt)),
    )

abbrev text : Bytes → Bytes → Pair
text name value = record {
  first_field = name;
  more_field = [];
  first_value = value;
  more_value = [];
}

-- Two requests of one connection, each with one field.
abbrev two_requests : List Request
two_requests =
    record { url = codes "/a"; pairs = text (codes "A") (codes "1") ∷ []; time = pos 0; item = 9 }
    ∷ record {
      url = codes "/b";
      pairs = text (codes "B") (codes "2") ∷ [];
      time = pos 0;
      item = 10;
    }
    ∷ []

requests_mixed_example :
    (w : Downstreams) × (parser_calls 0 (requests_calls two_requests) accepted ≡ some w)
    × ((header_of 0 w).list_headers
        ≡ record { field = codes "A"; value = codes "1" }
          ∷ record { field = codes "B"; value = codes "2" }
          ∷ [])
    × (waiting 0 w ≡ 2)
unfolding http_upstream_acceptcb downstreams_empty downstream_new header_new
requests_mixed_example =
    requests_mixed 0 two_requests accepted
      (record { no_field = refl; no_value = refl; not_value = refl })
      (
        (((omega arith, tt), tt, (omega arith, tt), tt), tt),
        ((((omega arith, tt), tt, (omega arith, tt), tt), tt), tt),
      )

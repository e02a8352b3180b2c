-- ===== src/Downstream/Delivered.antt =====
-- http_downstream.c: runs of events that are queued and timers that fire.
use h2_client_proxy.Base.{
  ℕ, ◌+◌, ◌==◌, ◌≡◌, refl, ap, ◌∙◌, arith, true, Option, none, some, List, [], ◌∷◌, if◌then◌else◌,
  length,
}
use h2_client_proxy.Base.Int.{ℤ}
use h2_client_proxy.Downstream.Types.{Downstreams}
use h2_client_proxy.Downstream.{Callback, http_upstream_queue_event}
use h2_client_proxy.Downstream.Events.{
  is_queued, events_of, IsTimed, IsFree, deliveries, queue-IsTimed,
}
use h2_client_proxy.Downstream.Fired.{IsQuiet, timer_fires, timer_fires-Fired}

-- What happens to the streams: an event is queued at a time, with the address of its item, for a
-- stream; or the timer of an item fires.
pub data Event : Type 0 where
  queues : ℤ → ℕ → ℕ → ℕ → Event
  fires : ℕ → Event

abbrev pub run_event : Callback → Event → Downstreams → Option Downstreams
run_event cb (queues ms item id what) w = some (http_upstream_queue_event ms item id what w)
run_event cb (fires item) w = timer_fires cb item w

abbrev pub run_all : Callback → List Event → Downstreams → Option Downstreams
run_all cb [] w = some w
run_all cb (e ∷ es) w = elim (run_event cb e w) [ none ↦ none | some w' ↦ run_all cb es w' ]

-- A new item has a free address, and a timer that fires is that of an item that is queued.
abbrev pub IsPossible : Event → Downstreams → Type 0
IsPossible (queues ms item id what) w = IsFree item w
IsPossible (fires item) w = is_queued item (events_of w (w.item_at item).downstream) ≡ true

abbrev pub AllPossible : Callback → List Event → Downstreams → Type 0
AllPossible cb [] w = Unit {0}
AllPossible cb (e ∷ es) w =
    IsPossible e w × ((w' : Downstreams) → run_event cb e w ≡ some w' → AllPossible cb es w')

-- The events that are queued for a stream.
abbrev pub queued_for : ℕ → List Event → ℕ
queued_for id [] = 0
queued_for id (queues ms item i what ∷ es) = (if i == id then 1 else 0) + queued_for id es
queued_for id (fires item ∷ es) = queued_for id es

queued_for-cons :
    (id : ℕ) (e : Event) (es : List Event)
    → queued_for id (e ∷ es) ≡ queued_for id (e ∷ []) + queued_for id es
queued_for-cons id (queues ms item i what) es = omega arith
queued_for-cons id (fires item) es = omega arith

module _ (cb : Callback) (quiet : IsQuiet cb) where
  -- One event of a run.
  record Stepped (e : Event) (w : Downstreams) : Type 0 where
    after : Downstreams
    runs : run_event cb e w ≡ some after
    timed : IsTimed after
    has_cb : after.has_cb ≡ true
    counted :
        (i : ℕ)
        → deliveries i after.delivered + length (events_of after i)
          ≡ deliveries i w.delivered + length (events_of w i) + queued_for i (e ∷ [])

  run_event-Stepped :
      (e : Event) (w : Downstreams) → w.has_cb ≡ true → IsTimed w → IsPossible e w → Stepped e w
  unfolding http_upstream_queue_event
  run_event-Stepped (queues ms item id what) w h v p = record {
    after = http_upstream_queue_event ms item id what w;
    runs = refl;
    timed = queue-IsTimed ms item id what w p v;
    has_cb = h;
    counted = λ i. ground arith;
  }
  run_event-Stepped (fires item) w h v p =
      let (w', runs, timed, has_cb, counted) = timer_fires-Fired cb quiet item w h p v in
      record {
        after = w';
        runs = runs;
        timed = timed;
        has_cb = has_cb;
        counted = λ i. ground (arith, counted i);
      }

  -- With a callback that queues and frees no event: whatever events are queued, with free addresses,
  -- and whatever timers of queued items fire, in any order, no pointer is stale, each item that is
  -- queued in the end still has its timer in the loop, and for every stream the calls of the callback
  -- and the items that wait are together as many as the events: none is lost or delivered twice.
  pub run_all-deliveries :
      (es : List Event) (w : Downstreams)
      → w.has_cb ≡ true
      → IsTimed w
      → AllPossible cb es w
      → (w' : Downstreams) × (run_all cb es w ≡ some w')
        × IsTimed w'
        × ((i : ℕ)
            → deliveries i w'.delivered + length (events_of w' i)
              ≡ deliveries i w.delivered + length (events_of w i) + queued_for i es)
  run_all-deliveries [] w h v p = (w, refl, v, (λ i. omega arith))
  run_all-deliveries (e ∷ es) w h v p =
      let s = run_event-Stepped e w h v p.0 in
      let (w', runs, timed, counted) =
        run_all-deliveries es s.after s.has_cb s.timed (p.1 s.after s.runs) in
      (
        w',
        ap
              (λ (o : Option Downstreams). elim o as (λ _. Option Downstreams) [
                | none ↦ none
                | some x ↦ run_all cb es x
              ])
              s.runs
            ∙ runs,
        timed,
        λ i. omega (arith, counted i, s.counted i, queued_for-cons i e es),
      )

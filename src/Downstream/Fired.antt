-- ===== src/Downstream/Fired.antt =====
-- http_downstream.c: what `http_upstream_eventcb` does when the timer of an item fires.
use h2_client_proxy.Base.{
  ℕ, ◌+◌, ◌==◌, ◌≡◌, ap, ◌∙◌, arith, true, false, Option, none, some, List, [], ◌∷◌, ◌++◌,
  if◌then◌else◌, length, inl, inr, Bool-cases,
}
use h2_client_proxy.Ep.Types.{EpBase, of_timer}
use h2_client_proxy.Ep.Timer.{is_pending, ep_timer_info_del, ep_timer_free}
use h2_client_proxy.Downstream.Types.{EventItem, Delivery, Downstreams, set_incb, set_events, put}
use h2_client_proxy.Downstream.{Callback, remove_item, call_cb, http_upstream_eventcb}
use h2_client_proxy.Downstream.Events.{
  is_queued, events_of, IsTimed, deliveries, deliveries-append, Removed, remove_item-Removed,
  other_timer,
}

-- A callback that queues and frees nothing; it may set the `args` of a stream.
pub record IsQuiet (cb : Callback) : Type 0 where
  pub same_base :
      (what id : ℕ) (args : Option ℕ) (w : Downstreams) → (cb what id args w).base ≡ w.base
  pub same_items :
      (what id : ℕ) (args : Option ℕ) (w : Downstreams) → (cb what id args w).item_at ≡ w.item_at
  pub same_events :
      (what id : ℕ) (args : Option ℕ) (w : Downstreams) (i : ℕ)
      → events_of (cb what id args w) i ≡ events_of w i
  pub same_delivered :
      (what id : ℕ) (args : Option ℕ) (w : Downstreams)
      → (cb what id args w).delivered ≡ w.delivered
  pub same_cb :
      (what id : ℕ) (args : Option ℕ) (w : Downstreams) → (cb what id args w).has_cb ≡ w.has_cb

-- The callback that `ep_timer_check` makes for the timer of an item, which it took out of its list.
abbrev pub timer_fires : Callback → ℕ → Downstreams → Option Downstreams
timer_fires cb item w = http_upstream_eventcb cb item (record w {
  base = record w.base { list_timers = ep_timer_info_del (of_timer item) w.base.list_timers };
})

-- The event of one item was delivered, and the item is gone.
pub record Fired (item : ℕ) (rest : List ℕ) (w w' : Downstreams) : Type 0 where
  pub items : w'.item_at ≡ w.item_at
  pub events :
      (i : ℕ) → events_of w' i ≡ (if (w.item_at item).downstream == i then rest else events_of w i)
  pub timers :
      (k : ℕ)
      → item == k ≡ false
      → is_pending (of_timer k) w'.base.list_timers ≡ is_pending (of_timer k) w.base.list_timers
  pub delivered :
      w'.delivered
      ≡ w.delivered
        ++ record {
          what = (w.item_at item).what;
          downstream = (w.item_at item).downstream;
          args = (w.downstream_at (w.item_at item).downstream).args;
        }
          ∷ []
  pub has_cb : w'.has_cb ≡ true

free_keeps :
    (item k : ℕ) (b : EpBase)
    → item == k ≡ false
    → is_pending (of_timer k) (ep_timer_free item b).list_timers
      ≡ is_pending (of_timer k) b.list_timers
unfolding ep_timer_free
free_keeps item k b e = ground (arith, other_timer (of_timer item) (of_timer k) b.list_timers e)

-- An item that is still queued was queued before, and is another one.
still_queued :
    (item : ℕ) (w w' : Downstreams) (r : Removed item (events_of w (w.item_at item).downstream))
    (i k : ℕ)
    → IsTimed w
    → Fired item r.rest w w'
    → is_queued k (events_of w' i) ≡ true
    → (is_queued k (events_of w i) ≡ true) × (item == k ≡ false)
still_queued item w w' r i k v f q = elim (Bool-cases ((w.item_at item).downstream == i)) [
  | inl t ↦ ground (arith, f.events i, r.others k)
  | inr t ↦ ground (arith, f.events i, v.home i k)
]

Fired-count :
    (item : ℕ) (w w' : Downstreams) (r : Removed item (events_of w (w.item_at item).downstream))
    (i : ℕ)
    → Fired item r.rest w w'
    → deliveries i w'.delivered + length (events_of w' i)
      ≡ deliveries i w.delivered + length (events_of w i)
Fired-count item w w' r i f =
    let id = (w.item_at item).downstream in
    let one : Delivery = record {
      what = (w.item_at item).what;
      downstream = id;
      args = (w.downstream_at id).args;
    } in
    let sum = ap (deliveries i) f.delivered ∙ deliveries-append i w.delivered (one ∷ []) in
    ground (arith, f.events i, sum, r.fewer)

-- The other items stay as they were.
Fired-IsTimed :
    (item : ℕ) (w w' : Downstreams) (r : Removed item (events_of w (w.item_at item).downstream))
    → IsTimed w
    → Fired item r.rest w w'
    → IsTimed w'
Fired-IsTimed item w w' r v f = record {
  home = λ i k q.
      let s = still_queued item w w' r i k v f q in
      ap (λ (g : ℕ → EventItem). (g k).downstream) f.items ∙ v.home i k s.0;
  timed = λ i k q. let s = still_queued item w w' r i k v f q in f.timers k s.1 ∙ v.timed i k s.0;
  distinct = λ i. ground (arith, f.events i, r.distinct, v.distinct i);
}

module _ (cb : Callback) (quiet : IsQuiet cb) (item : ℕ) (w : Downstreams) where
  abbrev id : ℕ
  id = (w.item_at item).downstream

  abbrev due : Downstreams
  due = record w {
    base = record w.base { list_timers = ep_timer_info_del (of_timer item) w.base.list_timers };
  }

  abbrev entered : Downstreams
  entered = put id (set_incb true (w.downstream_at id)) due

  abbrev called : Downstreams
  called = call_cb cb (w.item_at item) entered

  abbrev left : Downstreams
  left = put id (set_incb false (called.downstream_at id)) called

  abbrev finished : List ℕ → Downstreams
  finished rest = record (put id (set_events rest (left.downstream_at id)) left) {
    base = ep_timer_free item left.base;
  }

  entered_args : (entered.downstream_at id).args ≡ (w.downstream_at id).args
  unfolding set_incb
  entered_args = ground arith

  entered_events : (i : ℕ) → events_of entered i ≡ events_of w i
  unfolding set_incb
  entered_events i = ground arith

  abbrev logged : Downstreams
  logged = record entered {
    delivered =
        w.delivered
        ++ record {
          what = (w.item_at item).what;
          downstream = id;
          args = (entered.downstream_at id).args;
        }
          ∷ [];
  }

  abbrev answered : Downstreams
  answered = cb (w.item_at item).what id (entered.downstream_at id).args logged

  called_is : w.has_cb ≡ true → called ≡ answered
  unfolding call_cb
  called_is h = ap (λ b. if b then answered else entered) h

  left_events : w.has_cb ≡ true → (i : ℕ) → events_of left i ≡ events_of w i
  unfolding set_incb
  left_events h i =
      let args = (entered.downstream_at id).args in
      let same =
        ap (λ x. events_of x i) (called_is h)
        ∙ quiet.same_events (w.item_at item).what id args logged i
        ∙ entered_events i in
      ground (arith, same)

  fired :
      w.has_cb ≡ true → (r : Removed item (events_of w id)) → Fired item r.rest w (finished r.rest)
  unfolding set_events ep_timer_free
  fired h r =
      let what = (w.item_at item).what in
      let args = (entered.downstream_at id).args in
      let base = ap (λ x. x.base) (called_is h) ∙ quiet.same_base what id args logged in
      record {
        items = ap (λ x. x.item_at) (called_is h) ∙ quiet.same_items what id args logged;
        events = λ i. ground (arith, left_events h i);
        timers = λ k e.
            free_keeps item k called.base e
            ∙ ap (λ (b : EpBase). is_pending (of_timer k) b.list_timers) base
            ∙ other_timer (of_timer item) (of_timer k) w.base.list_timers e;
        delivered =
            ap (λ x. x.delivered) (called_is h)
            ∙ quiet.same_delivered what id args logged
            ∙ ap (λ a. w.delivered ++ record { what = what; downstream = id; args = a } ∷ [])
                entered_args;
        has_cb = ap (λ x. x.has_cb) (called_is h) ∙ quiet.same_cb what id args logged ∙ h;
      }

  fires :
      w.has_cb ≡ true
      → (r : Removed item (events_of w id)) → timer_fires cb item w ≡ some (finished r.rest)
  unfolding http_upstream_eventcb
  fires h r =
      ap
        (λ (o : Option (List ℕ)). elim o as (λ _. Option Downstreams) [
          | none ↦ none
          | some rest ↦ some (finished rest)
        ])
        (ap (remove_item item) (left_events h id) ∙ r.found)

  -- The timer of an item that is queued fires: no pointer is stale, and just this event is delivered.
  pub timer_fires-Fired :
      w.has_cb ≡ true
      → is_queued item (events_of w id) ≡ true
      → IsTimed w
      → (w' : Downstreams) × (timer_fires cb item w ≡ some w')
        × IsTimed w'
        × (w'.has_cb ≡ true)
        × ((i : ℕ)
            → deliveries i w'.delivered + length (events_of w' i)
              ≡ deliveries i w.delivered + length (events_of w i))
  timer_fires-Fired h q v =
      let r = remove_item-Removed item (events_of w id) q (v.distinct id) in
      let f = fired h r in
      (
        finished r.rest,
        fires h r,
        Fired-IsTimed item w (finished r.rest) r v f,
        f.has_cb,
        λ i. Fired-count item w (finished r.rest) r i f,
      )

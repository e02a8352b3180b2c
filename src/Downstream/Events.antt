-- ===== src/Downstream/Events.antt =====
-- http_downstream.c and ep.c: every event that is queued is delivered once, by the timer of its item.
use h2_client_proxy.Base.{
  ℕ, suc, ◌+◌, ◌||◌, ◌==◌, ◌≡◌, refl, ap, arith, Bool, true, false, some, List, [], ◌∷◌, ◌++◌,
  if◌then◌else◌, length, inl, inr, Bool-cases,
}
use h2_client_proxy.Base.Int.{ℤ, pos}
use h2_client_proxy.Ep.Types.{TimerInfo, Owner, of_timer, same_owner}
use h2_client_proxy.Ep.Timer.{
  is_pending, remove_info, ep_timer_info_del, ep_timer_new, ep_timer_add,
}
use h2_client_proxy.Ep.Timer.Insert.{ep_timer_info_add-is_pending}
use h2_client_proxy.Downstream.Types.{Delivery, Downstreams, set_events}
use h2_client_proxy.Downstream.{http_upstream_queue_event, remove_item}

abbrev pub is_queued : ℕ → List ℕ → Bool
is_queued item [] = false
is_queued item (x ∷ xs) = x == item || is_queued item xs

abbrev pub AllDistinct : List ℕ → Type 0
AllDistinct [] = Unit {0}
AllDistinct (x ∷ xs) = (is_queued x xs ≡ false) × AllDistinct xs

abbrev pub events_of : Downstreams → ℕ → List ℕ
events_of w id = (w.downstream_at id).list_events

-- An item stands once, in the list of its own stream, and its timer is in the list of the loop.
pub record IsTimed (w : Downstreams) : Type 0 where
  pub home :
      (id item : ℕ) → is_queued item (events_of w id) ≡ true → (w.item_at item).downstream ≡ id
  pub timed :
      (id item : ℕ)
      → is_queued item (events_of w id) ≡ true
      → is_pending (of_timer item) w.base.list_timers ≡ true
  pub distinct : (id : ℕ) → AllDistinct (events_of w id)

-- An address that is free: no item in a list, and no timer, has it.
pub record IsFree (item : ℕ) (w : Downstreams) : Type 0 where
  pub no_item : (id : ℕ) → is_queued item (events_of w id) ≡ false
  pub no_timer : is_pending (of_timer item) w.base.list_timers ≡ false

-- The calls of `s_cb` for a stream.
abbrev pub deliveries : ℕ → List Delivery → ℕ
deliveries id [] = 0
deliveries id (d ∷ ds) = (if d.downstream == id then 1 else 0) + deliveries id ds

pub deliveries-append :
    (id : ℕ) (a b : List Delivery) → deliveries id (a ++ b) ≡ deliveries id a + deliveries id b
deliveries-append id [] b = omega arith
deliveries-append id (d ∷ ds) b = omega (arith, deliveries-append id ds b)

pub queue-IsTimed :
    (ms : ℤ) (item id what : ℕ) (w : Downstreams)
    → IsFree item w
    → IsTimed w
    → IsTimed (http_upstream_queue_event ms item id what w)
unfolding http_upstream_queue_event set_events ep_timer_new ep_timer_add
queue-IsTimed ms item id what w f v = record {
  home = λ i k. ground (arith, v.home i k, f.no_item i);
  timed = λ i k. ground (
    arith,
    v.timed i k,
    ep_timer_info_add-is_pending ms (pos 0) (of_timer item) (of_timer k) w.base.list_timers
        f.no_timer,
  );
  distinct = λ i. ground (arith, v.distinct i, f.no_item i);
}

-- What is left of a list without an item of it.
pub record Removed (item : ℕ) (xs : List ℕ) : Type 0 where
  pub rest : List ℕ
  pub found : remove_item item xs ≡ some rest
  pub fewer : length xs ≡ suc (length rest)
  pub others : (k : ℕ) → is_queued k rest ≡ true → (is_queued k xs ≡ true) × (item == k ≡ false)
  pub distinct : AllDistinct rest

pub remove_item-Removed :
    (item : ℕ) (xs : List ℕ) → is_queued item xs ≡ true → AllDistinct xs → Removed item xs
unfolding remove_item
remove_item-Removed item [] q d = cc
remove_item-Removed item (x ∷ xs) q d = elim (Bool-cases (x == item)) [
  | inl t ↦ record {
    rest = xs;
    found = ground arith;
    fewer = refl;
    others = λ k e. ground (arith, d.0);
    distinct = d.1;
  }
  | inr f ↦
      let r = remove_item-Removed item xs (ground arith) d.1 in
      record {
        rest = x ∷ r.rest;
        found = ground (arith, r.found);
        fewer = ap suc r.fewer;
        others = λ k e. ground (arith, r.others k);
        distinct = (ground (arith, r.others x, d.0), r.distinct);
      }
]

other_owner :
    (a o k : Owner) → same_owner a o ≡ true → same_owner o k ≡ false → same_owner a k ≡ false
other_owner a o k p q = ground arith

remove_other :
    (o k : Owner) (ts : List TimerInfo)
    → same_owner o k ≡ false
    → is_pending k (remove_info o ts) ≡ is_pending k ts
unfolding is_pending remove_info
remove_other o k [] e = refl
remove_other o k (t ∷ ts) e = ground (arith, other_owner t.info o k, remove_other o k ts e)

pub other_timer :
    (o k : Owner) (ts : List TimerInfo)
    → same_owner o k ≡ false
    → is_pending k (ep_timer_info_del o ts) ≡ is_pending k ts
unfolding ep_timer_info_del
other_timer o k ts e = ground (arith, remove_other o k ts e)

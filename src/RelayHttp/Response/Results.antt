-- ===== src/RelayHttp/Response/Results.antt =====
-- relay_http.c: results that keep the buckets of idle relays.
use h2_client_proxy.Base.{
  fun_ext, ℕ, Bool, true, false, Option, none, some, ◌≡◌, refl, ap, sym, ◌∙◌, inl, inr, Bool-cases,
  if◌then◌else◌, Bytes, ◌==◌,
}
use h2_client_proxy.Ep.Types.{assign}
use h2_client_proxy.Header.{Header}
use h2_client_proxy.RelayHttp2.Types.{status_connected}
use h2_client_proxy.RelayHttp.Types.{HttpRelay, Relays, Call, call_conn, emit, put}
use h2_client_proxy.RelayHttp.Pool.{relay_count_hash, relay_free}
use h2_client_proxy.RelayHttp.Pool.Valid.{eq_sound, IsPool, IsIdle}
use h2_client_proxy.RelayHttp.Pool.Keeps.{same-IsPool, put-IsPool, relay_free-IsPool}
use h2_client_proxy.RelayHttp.Response.{write_header, then_on, start_body, end_body, change}

-- A result has valid buckets, if there is one.
abbrev pub Gives : Option Relays → Type 0
Gives m = (w : Relays) → m ≡ some w → IsPool w

abbrev pub Keeps : (Relays → Option Relays) → Type 0
Keeps f = (w : Relays) → IsPool w → Gives (f w)

pub Gives-some : (w : Relays) → IsPool w → Gives (some w)
Gives-some w v w' e = let p : w ≡ w' = cc in rw (sym p) v

Gives-none : Gives none
Gives-none w e = cc

pub if-Gives :
    (c : Bool) (a b : Option Relays)
    → (c ≡ true → Gives a)
    → (c ≡ false → Gives b)
    → Gives (if c then a else b)
if-Gives true a b f g = f refl
if-Gives false a b f g = g refl

pub then_on-Gives :
    (id : ℕ) (f : Relays → Option Relays) (m : Option Relays)
    → Keeps f
    → Gives m
    → Gives (then_on id f m)
unfolding then_on
then_on-Gives id f none k g = Gives-none
then_on-Gives id f (some w) k g =
    if-Gives (w.relay_at id).is_freed none (f w) (λ e. Gives-none) (λ e. k w (g w refl))

pub branch-Gives :
    (id : ℕ) (f : Relays → Option Relays) (c : Bool) (a b : Option Relays)
    → (c ≡ true → Gives (then_on id f a))
    → (c ≡ false → Gives (then_on id f b))
    → Gives (then_on id f (if c then a else b))
branch-Gives id f true a b g h = g refl
branch-Gives id f false a b g h = h refl

pub elim-Gives {ℓ} :
    {A : Type ℓ} (o : Option A) (g : A → Option Relays)
    → ((a : A) → o ≡ some a → Gives (g a))
    → Gives (elim o [ none ↦ none | some a ↦ g a ])
elim-Gives none g k = Gives-none
elim-Gives (some a) g k = k a refl

emit-IsPool : (id : ℕ) (c : Call) (w : Relays) → IsPool w → IsPool (emit id c w)
emit-IsPool id c w v = same-IsPool w (emit id c w) refl refl v

pub call_conn-Keeps : (id : ℕ) (c : Call) → Keeps (call_conn id c)
unfolding call_conn
call_conn-Keeps id c w v =
    if-Gives (w.relay_at id).conn (some (emit id c w)) none
      (λ e. Gives-some (emit id c w) (emit-IsPool id c w v)) (λ e. Gives-none)

-- A change that does not matter to an idle relay.
abbrev IsHarmless : (HttpRelay → HttpRelay) → Type 0
IsHarmless g = (i : ℕ) (r : HttpRelay) → IsIdle i r → IsIdle i (g r)

pub change-IsPool :
    (g : HttpRelay → HttpRelay) (id : ℕ) (w : Relays)
    → IsHarmless g
    → IsPool w
    → IsPool (change g id w)
change-IsPool g id w k v = put-IsPool id (g (w.relay_at id)) w (λ i x. k i (w.relay_at id) x) v

-- The status of a relay that is connected is 1.
pub set_status-IsHarmless : IsHarmless (λ r. record r { relay_status = status_connected })
set_status-IsHarmless i r x = record {
  marked = x.marked;
  live = x.live;
  has_conn = x.has_conn;
  in_bucket = x.in_bucket;
  ready = refl;
}

same-IsHarmless :
    (g : HttpRelay → HttpRelay)
    → ((r : HttpRelay)
        → ((g r).is_idle ≡ r.is_idle)
          × ((g r).is_freed ≡ r.is_freed)
          × ((g r).conn ≡ r.conn)
          × ((g r).host ≡ r.host)
          × ((g r).relay_status ≡ r.relay_status))
    → IsHarmless g
same-IsHarmless g s i r x =
    let e = s r in
    record {
      marked = e.0 ∙ x.marked;
      live = e.1 ∙ x.live;
      has_conn = e.2 ∙ x.has_conn;
      in_bucket = ap relay_count_hash e.3 ∙ x.in_bucket;
      ready = e.4 ∙ x.ready;
    }

pub set_header-IsHarmless : (h : Option Header) → IsHarmless (λ r. record r { response_header = h })
set_header-IsHarmless h = same-IsHarmless _ (λ r. (refl, refl, refl, refl, refl))

pub start_body-IsHarmless : (bytes : Bytes) → IsHarmless (start_body bytes)
unfolding start_body
start_body-IsHarmless bytes =
    same-IsHarmless (start_body bytes) (λ r. (refl, refl, refl, refl, refl))

pub end_body-IsHarmless : IsHarmless end_body
unfolding end_body
end_body-IsHarmless = same-IsHarmless end_body (λ r. (refl, refl, refl, refl, refl))

pub set_connected-IsHarmless : IsHarmless (λ r. record r { connected = true })
set_connected-IsHarmless = same-IsHarmless _ (λ r. (refl, refl, refl, refl, refl))

pub write_header-Keeps : (f : Header → Option Header) (id : ℕ) → Keeps (write_header f id)
unfolding write_header
write_header-Keeps f id w v = elim-Gives (w.relay_at id).response_header _ (λ h e.
    elim-Gives (f h) _ (λ h' e'.
      let x = change (λ r. record r { response_header = some h' }) id w in
      Gives-some x (
        change-IsPool (λ r. record r { response_header = some h' }) id w
          (set_header-IsHarmless (some h')) v)))

self : (f : ℕ → HttpRelay) (i j : ℕ) → assign f i (f i) j ≡ f j
self f i j = elim (Bool-cases (i == j)) [
  | inl e ↦ rw (e, eq_sound i j e) refl
  | inr e ↦ rw (e) refl
]

put_same : (id : ℕ) (w : Relays) → put id (w.relay_at id) w ≡ w
put_same id w = ap (λ f. record w { relay_at = f }) (fun_ext (self w.relay_at id))

pub relay_free-Keeps : (id : ℕ) → Keeps (relay_free id)
relay_free-Keeps id w v w' e =
    relay_free-IsPool id (w.relay_at id) w w' v refl refl (ap (relay_free id) (put_same id w) ∙ e)

pub then_free :
    (id : ℕ) (r1 : HttpRelay) (w : Relays)
    → IsPool w
    → r1.host ≡ (w.relay_at id).host
    → r1.is_idle ≡ (w.relay_at id).is_idle
    → Gives (then_on id (relay_free id) (some (put id r1 w)))
unfolding then_on
then_free id r1 w v host idle =
    let x = put id r1 w in
    if-Gives (x.relay_at id).is_freed none (relay_free id x) (λ _. Gives-none)
      (λ _ w' e. relay_free-IsPool id r1 w w' v host idle e)

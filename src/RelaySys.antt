-- ===== src/RelaySys.antt =====
-- relay.h: `struct relay_sys`, through which a client uses its relay, and what it may expect of the
-- functions in it. Http and Http2 are the two tables of the program, Forward the client over
-- one, Calls what it calls, and Kept the body that comes too early.
mod Tests
pub mod Calls
pub mod Kept
pub mod Forward
pub mod Http2
pub mod Http
use h2_client_proxy.Base.{
  ◌≡◌, ◌≢◌, Bool, true, false, Option, none, some, List, [], ◌∷◌, ◌++◌, Bytes,
}
use h2_client_proxy.Header.{Header}
use h2_client_proxy.Client.Types.{
  RelayCall, relay_create, relay_send_request, relay_write_body, relay_close, relay_suspend_read,
  relay_resume_read, relay_complete_request,
}

-- The functions that take a relay. A relay stands for itself and all that it acts on; a crash is
-- `none`.
pub record RelaySys : Type 1 where
  pub Relay : Type 0
  pub send_request : Header → Relay → Option Relay
  pub write_body : Bytes → Relay → Option Relay
  pub complete_request : Relay → Option Relay
  pub close : Relay → Option Relay
  pub suspend_read : Relay → Option Relay
  pub resume_read : Relay → Option Relay

-- What a client relies on: a relay that reports that it is connected takes a request, then the parts
-- of its body, and then the end of the body. `Told h parts is_complete r` says that `r` has passed on
-- just this.
pub record RelayLaws (S : RelaySys) : Type 1 where
  pub Accepts : Header → Type 0
  pub Connected : S.Relay → Type 0
  pub Told : Header → List Bytes → Bool → S.Relay → Type 0
  pub sends :
      (h : Header) (r : S.Relay)
      → Accepts h
      → Connected r
      → (r' : S.Relay) × (S.send_request h r ≡ some r') × Told h [] false r'
  pub writes :
      (h : Header) (parts : List Bytes) (bytes : Bytes) (r : S.Relay)
      → bytes ≢ []
      → Told h parts false r
      → (r' : S.Relay) × (S.write_body bytes r ≡ some r') × Told h (parts ++ bytes ∷ []) false r'
  pub completes :
      (h : Header) (parts : List Bytes) (r : S.Relay)
      → Told h parts false r
      → (r' : S.Relay) × (S.complete_request r ≡ some r') × Told h parts true r'

-- A call that a client makes through the table; the making of a relay is of another one, and a NULL
-- header is a crash.
unfoldable pub perform : (S : RelaySys) → RelayCall → S.Relay → Option S.Relay
perform S (relay_create host port) r = some r
perform S (relay_send_request none) r = none
perform S (relay_send_request (some h)) r = S.send_request h r
perform S (relay_write_body bytes) r = S.write_body bytes r
perform S relay_close r = S.close r
perform S relay_suspend_read r = S.suspend_read r
perform S relay_resume_read r = S.resume_read r
perform S relay_complete_request r = S.complete_request r

unfoldable pub perform_all : (S : RelaySys) → List RelayCall → S.Relay → Option S.Relay
unfolding perform
perform_all S [] r = some r
perform_all S (call ∷ calls) r = elim (perform S call r) [
  | none ↦ none
  | some r' ↦ perform_all S calls r'
]

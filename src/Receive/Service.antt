-- ===== src/Receive/Service.antt =====
-- `enet_host_check_events` and `enet_host_service` of src/protocol.c. The clock, the
-- waiting for the socket and what is received stand in a `World`, an argument: each call of the
-- operating system gives its result and the next one.
use enet.Base.{
  ℕ, zero, suc, ◌+◌, Bool, true, false, List, Option, none, some, leb, if◌then◌else◌, u32,
}
use enet.Time.{time_difference, time_greater_equal}
use enet.State.{Session, Peer, Host, Event, quiet}
use enet.Transmit.Dispatch.{dispatch_incoming_commands}
use enet.Transmit.Send.{Round, done, told, broken, Walked}
use enet.Hosting.Throttle.{bandwidth_throttle}
use enet.Receive.{Reception}
use enet.Receive.Header.{Received, Callbacks}
use enet.Receive.Arrivals.{
  Arrival, Verdict, Result, idle, event, failure, receive_incoming_commands,
}

-- What `enet_socket_wait` gives: a failure, or 0 with the conditions that are met.
pub data Waited : Type 0 where
  failed : Waited
  met : Bool → Bool → Waited

-- How the wait for the socket ends: with a failure, at the time limit, or with something to receive or
-- not.
pub data Woken : Type 0 where
  broken_off : Woken
  timed_out : Woken
  ready : Bool → Woken

infixl 5 ◌>>=◌
abbrev ◌>>=◌ {ℓ κ} : {A : Type ℓ} {B : Type κ} → Option A → (A → Option B) → Option B
none >>= f = none
some a >>= f = f a

module _ {World : Type 0} (time_get : World → ℕ × World) (socket_receive : World → Arrival × World)
    (socket_wait : ℕ → World → Waited × World)
    (intercept : Option (Received → Reception → Verdict × Received × Reception))
    (callbacks : Callbacks) (flush : Session → Session) (nobody : Peer)
    (send : Option Event → Host → List Peer → Option Round) where
  -- The host with its peers, and the event.
  abbrev after_sending : Reception → Walked → Reception
  after_sending r w = record r { host = w.host; peers = w.peers; event = w.event }

  -- `enet_protocol_send_outgoing_commands` with its timeouts, as `send` does it.
  unfoldable pub send_commands : Reception → Option (Result × Reception)
  send_commands r = elim (send r.event r.host r.peers) [
    | none ↦ none
    | some (done v) ↦ some (Result.idle, after_sending r v)
    | some (told v) ↦ some (Result.event, after_sending r v)
    | some (broken v) ↦ some (Result.failure, after_sending r v)
  ]

  -- `enet_protocol_dispatch_incoming_commands`, if the application wants an event.
  unfoldable pub dispatch_event : Reception → Result × Reception
  dispatch_event r =
      let (given, h, peers) = dispatch_incoming_commands nobody r.host r.peers in
      let told : Result × Reception = elim given [
        | none ↦ (Result.idle, record r { host = h; peers = peers })
        | some e ↦ (Result.event, record r { host = h; peers = peers; event = some e })
      ] in
      elim r.event [ none ↦ (Result.idle, r) | some _ ↦ told ]

  -- `enet_host_check_events`; without an event to fill in it returns -1.
  unfoldable pub check_events : Reception → Result × Reception
  check_events r = elim r.event [
    | none ↦ (Result.failure, r)
    | some _ ↦ dispatch_event (record r { event = some quiet })
  ]

  abbrev set_time : ℕ → Reception → Reception
  set_time now r = record r { host = record (r.host) { service_time = now } }

  -- How a part of the service ends: the next part follows, or the call returns.
  unfoldable pub proceed :
      Result
      → Reception
      → World
      → (Reception → World → Option (Result × Reception × World))
      → Option (Result × Reception × World)
  proceed idle r w next = next r w
  proceed event r w next = some (Result.event, r, w)
  proceed failure r w next = some (Result.failure, r, w)

  -- The wait for the socket, again when it was interrupted. The rounds are fuel; `none` is a wait that
  -- is not over.
  unfoldable pub wait_until : ℕ → ℕ → Reception → World → Option (Woken × Reception × World)
  wait_until zero timeout r w = none
  wait_until (suc fuel) timeout r w =
      let (now, w₁) = time_get w in
      let r₁ = set_time now r in
      let (waited, w₂) = socket_wait (time_difference timeout now) w₁ in
      let again = wait_until fuel timeout r₁ w₂ in
      let ended : Option (Woken × Reception × World) = elim waited [
        | failed ↦ some (Woken.broken_off, r₁, w₂)
        | met to_receive interrupted ↦
            if interrupted then again else some (Woken.ready to_receive, r₁, w₂)
      ] in
      if time_greater_equal now timeout then some (Woken.timed_out, r₁, w₁) else ended

  -- The bandwidth throttle, which reads the clock, when its interval of a second is over.
  unfoldable pub throttle_bandwidth : Reception → World → Option (Reception × World)
  throttle_bandwidth r w =
      let (now, w') = time_get w in
      let adjusted : Option (Reception × World) = elim (bandwidth_throttle now r.host r.peers) [
        | none ↦ none
        | some (h, peers) ↦ some (record r { host = h; peers = peers }, w')
      ] in
      if leb 1000 (time_difference r.host.service_time r.host.bandwidth_throttle_epoch)
      then adjusted
      else some (r, w)

  -- The parts of a round that send, receive, send again and look for an event.
  unfoldable pub serve_round : Reception → World → Option (Result × Reception × World)
  serve_round r w = do
    (r₁, w₁) ← throttle_bandwidth r w
    (sent, r₂) ← send_commands r₁
    proceed sent r₂ w₁ (λ (r₃ : Reception) (w₃ : World). do
      (received, r₄, w₄) ←
          receive_incoming_commands socket_receive intercept callbacks flush nobody r₃ w₃
      proceed received r₄ w₄ (λ (r₅ : Reception) (w₅ : World). do
        (sent', r₆) ← send_commands r₅
        proceed sent' r₆ w₅ (λ (r₇ : Reception) (w₇ : World).
            some ((dispatch_event r₇).0, (dispatch_event r₇).1, w₇))))

  -- The rounds, until there is a result, the time is over, or the wait ends with nothing to receive.
  -- `waits` is fuel for a wait and `fuel` for the rounds.
  unfoldable pub serve_rounds : ℕ → ℕ → ℕ → Reception → World → Option (Result × Reception × World)
  serve_rounds waits zero timeout r w = none
  serve_rounds waits (suc fuel) timeout r w = do
    (served, r₁, w₁) ← serve_round r w
    proceed served r₁ w₁ (λ (r₂ : Reception) (w₂ : World).
        let waited = do
          (woken, r₃, w₃) ← wait_until waits timeout r₂ w₂
          let (now, w₄) = time_get w₃
          let r₄ = set_time now r₃
          elim woken [
            | Woken.broken_off ↦ some (Result.failure, r₃, w₃)
            | Woken.timed_out ↦ some (Result.idle, r₃, w₃)
            | Woken.ready to_receive ↦ elim to_receive [
              | false ↦ some (Result.idle, r₄, w₄)
              | true ↦ serve_rounds waits fuel timeout r₄ w₄
            ]
          ]
        in if time_greater_equal r₂.host.service_time timeout
          then some (Result.idle, r₂, w₂)
          else waited)

  -- `enet_host_service`; `event` of the reception is the argument.
  unfoldable pub service : ℕ → ℕ → ℕ → Reception → World → Option (Result × Reception × World)
  service waits fuel timeout r w =
      let emptied : Reception = elim r.event [
        | none ↦ r
        | some _ ↦ record r { event = some quiet }
      ] in
      let (result, r₁) = dispatch_event emptied in
      proceed result r₁ w (λ (r₂ : Reception) (w₂ : World).
        let (now, w₃) = time_get w₂ in
        serve_rounds waits fuel (u32 (timeout + now)) (set_time now r₂) w₃)

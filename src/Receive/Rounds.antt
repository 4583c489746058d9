-- ===== src/Receive/Rounds.antt =====
-- How `enet_protocol_receive_incoming_commands` ends (src/protocol.c).
use enet.Base.{
  ℕ, zero, suc, ◌<◌, ◌≡◌, ◌⊎◌, inl, inr, refl, ap, ◌∙◌, Bool, true, false, Option, none, some,
  if◌then◌else◌, arith, Bool-cases,
}
use enet.State.{Session, Peer, Address}
use enet.Receive.{Reception}
use enet.Receive.Header.{Received, Callbacks, handle_incoming_commands, has_event}
use enet.Receive.Guard.{handle_incoming_commands-Outcome}
use enet.Receive.Arrivals.{
  Arrival, truncated, lost, nothing, datagram, Result, handle_received, take_datagram, finish,
  arrive, receive_each, receive_incoming_commands, count_received,
}

-- Something was received, complete or cut off.
abbrev pub HasCome : Arrival → Type 0
HasCome truncated = Unit {0}
HasCome (datagram from g) = Unit {0}
HasCome lost = ⊥
HasCome nothing = ⊥

abbrev pub IsComplete : Arrival → Type 0
IsComplete (datagram from g) = Unit {0}
IsComplete _ = ⊥

module _ {World : Type 0} (socket_receive : World → Arrival × World) where
  -- The world after so many calls of the socket.
  abbrev pub world_after : ℕ → World → World
  world_after zero w = w
  world_after (suc n) w = world_after n (socket_receive w).1

  -- What the socket gives at the call after so many.
  abbrev pub arrival_after : ℕ → World → Arrival
  arrival_after n w = (socket_receive (world_after n w)).0

  -- What ends a call that looks for at most `limit` datagrams, after so many arrivals: the socket
  -- fails, or has nothing more, or the limit is reached, or another datagram gives an event.
  abbrev pub Ending : ℕ → World → ℕ → Result → Bool → World → Type 0
  Ending limit w count result has_event w' =
      ((result ≡ Result.failure)
        × (has_event ≡ false)
        × (count < limit)
        × (arrival_after count w ≡ lost)
        × (w' ≡ world_after (suc count) w))
      ⊎ (((result ≡ Result.idle)
            × (has_event ≡ false)
            × (count < limit)
            × (arrival_after count w ≡ nothing)
            × (w' ≡ world_after (suc count) w))
          ⊎ (((result ≡ Result.idle)
                × (has_event ≡ false)
                × (count ≡ limit)
                × (w' ≡ world_after count w))
              ⊎ ((result ≡ Result.event)
                  × (has_event ≡ true)
                  × (count < limit)
                  × IsComplete (arrival_after count w)
                  × (w' ≡ world_after (suc count) w))))

  -- How a call ends: something came at each of `count` calls of the socket, and then it ended.
  pub record IsEnd (limit : ℕ) (w : World) (result : Result) (has_event : Bool) (w' : World)
      : Type 0 where
    pub count : ℕ
    pub came : (i : ℕ) → i < count → HasCome (arrival_after i w)
    pub ending : Ending limit w count result has_event w'

  later-Ending :
      (limit : ℕ) (w : World) (count : ℕ) (result : Result) (b : Bool) (w' : World)
      → Ending limit (socket_receive w).1 count result b w'
      → Ending (suc limit) w (suc count) result b w'
  later-Ending limit w count result b w' (inl (p, q, h, a, e)) = inl (p, q, omega (arith, h), a, e)
  later-Ending limit w count result b w' (inr (inl (p, q, h, a, e))) =
      inr (inl (p, q, omega (arith, h), a, e))
  later-Ending limit w count result b w' (inr (inr (inl (p, q, h, e)))) =
      inr (inr (inl (p, q, ap suc h, e)))
  later-Ending limit w count result b w' (inr (inr (inr (p, q, h, a, e)))) =
      inr (inr (inr (p, q, omega (arith, h), a, e)))

  -- One arrival more before the others.
  later-came :
      (w : World) (count : ℕ)
      → HasCome (socket_receive w).0
      → ((i : ℕ) → i < count → HasCome (arrival_after i (socket_receive w).1))
      → (i : ℕ) → i < suc count
      → HasCome (arrival_after i w)
  later-came w count first came zero h = first
  later-came w count first came (suc i) h = came i (omega (arith, h))

  later-IsEnd :
      (limit : ℕ) (w : World) (result : Result) (b : Bool) (w' : World)
      → HasCome (socket_receive w).0
      → IsEnd limit (socket_receive w).1 result b w'
      → IsEnd (suc limit) w result b w'
  later-IsEnd limit w result b w' first v = record {
    count = suc v.count;
    came = later-came w v.count first v.came;
    ending = later-Ending limit w v.count result b w' v.ending;
  }

  -- Nothing came before the end.
  at_once :
      (limit : ℕ) (w : World) (result : Result) (b : Bool) (w' : World)
      → Ending limit w 0 result b w'
      → IsEnd limit w result b w'
  at_once limit w result b w' e = record {
    count = 0;
    came = λ i h. absurd (omega (arith, h));
    ending = e;
  }

  module _ (callbacks : Callbacks) (flush : Session → Session) (nobody : Peer) where
    -- The loop with so many rounds left, and one of its rounds.
    abbrev rounds : ℕ → Reception → World → Option (Result × Reception × World)
    rounds = receive_each socket_receive none callbacks flush nobody

    abbrev one_round : ℕ → Arrival → Reception → World → Option (Result × Reception × World)
    one_round k = arrive socket_receive none callbacks flush nobody (rounds k)

    abbrev Ends : ℕ → World → Option (Result × Reception × World) → Type 0
    Ends limit w o =
        (result : Result) × (r' : Reception) × (w' : World) × (o ≡ some (result, r', w'))
        × IsEnd limit w result (has_event r'.event) w'

    abbrev AllEnd : ℕ → Type 0
    AllEnd k = (r : Reception) (w : World) → has_event r.event ≡ false → Ends k w (rounds k r w)

    goes_on :
        (k : ℕ) (a : Arrival) (w : World) (o : Option (Result × Reception × World))
        → (socket_receive w).0 ≡ a
        → HasCome a
        → Ends k (socket_receive w).1 o
        → Ends (suc k) w o
    goes_on k a w o e h (result, r', w', f, v) =
        (result, r', w', f, later-IsEnd k w result _ w' (rw e h) v)

    handle_received_lem :
        (g : Received) (r t : Reception) (b : Bool)
        → handle_incoming_commands callbacks flush nobody g r ≡ some t
        → has_event t.event ≡ b
        → handle_received socket_receive none callbacks flush nobody g r
          ≡ some (if b then some Result.event else none, t)
    unfolding handle_received
    handle_received_lem g r t b f h =
        ap
          (λ o. elim o as (λ _. Option (Option Result × Reception)) [
            | none ↦ none
            | some u ↦ some (if has_event u.event then some Result.event else none, u)
          ])
          f
        ∙ ap (λ x. some (if x then some Result.event else none, t)) h

    -- A round with a datagram that has been handled.
    one_round-datagram :
        (k : ℕ) (from : Address) (g : Received) (r t : Reception) (w : World) (b : Bool)
        → handle_incoming_commands callbacks flush nobody g (count_received from g r) ≡ some t
        → has_event t.event ≡ b
        → one_round k (datagram from g) r w
          ≡ (if b then some (Result.event, t, w) else rounds k t w)
    unfolding arrive finish take_datagram
    one_round-datagram k from g r t w true f h =
        ap (finish socket_receive none callbacks flush nobody (rounds k) w)
          (handle_received_lem g (count_received from g r) t true f h)
    one_round-datagram k from g r t w false f h =
        ap (finish socket_receive none callbacks flush nobody (rounds k) w)
          (handle_received_lem g (count_received from g r) t false f h)

    datagram-Ends :
        (k : ℕ) (from : Address) (g : Received) (r : Reception) (w : World)
        → AllEnd k
        → (socket_receive w).0 ≡ datagram from g
        → Ends (suc k) w (one_round k (datagram from g) r (socket_receive w).1)
    datagram-Ends k from g r w all e =
        let w₁ = (socket_receive w).1 in
        let (t, f, _) =
          handle_incoming_commands-Outcome callbacks flush nobody g (count_received from g r) in
        elim (Bool-cases (has_event t.event)) [
          | inl h ↦ (
            Result.event,
            t,
            w₁,
            one_round-datagram k from g r t w₁ true f h,
            at_once (suc k) w Result.event (has_event t.event) w₁
                (inr (inr (inr (refl, h, omega arith, rw e tt, refl)))),
          )
          | inr h ↦
              goes_on k (datagram from g) w _ e tt
                (rw (one_round-datagram k from g r t w₁ false f h) (all t w₁ h))
        ]

    arrival-Ends :
        (k : ℕ) (a : Arrival) (r : Reception) (w : World)
        → has_event r.event ≡ false
        → AllEnd k
        → (socket_receive w).0 ≡ a
        → Ends (suc k) w (one_round k a r (socket_receive w).1)
    unfolding arrive
    arrival-Ends k truncated r w q all e =
        goes_on k truncated w _ e tt (all r (socket_receive w).1 q)
    arrival-Ends k lost r w q all e = (
      Result.failure,
      r,
      (socket_receive w).1,
      refl,
      at_once (suc k) w Result.failure (has_event r.event) (socket_receive w).1
          (inl (refl, q, omega arith, e, refl)),
    )
    arrival-Ends k nothing r w q all e = (
      Result.idle,
      r,
      (socket_receive w).1,
      refl,
      at_once (suc k) w Result.idle (has_event r.event) (socket_receive w).1
          (inr (inl (refl, q, omega arith, e, refl))),
    )
    arrival-Ends k (datagram from g) r w q all e = datagram-Ends k from g r w all e

    rounds-Ends : (k : ℕ) → AllEnd k
    unfolding receive_each
    rounds-Ends zero r w q = (
      Result.idle,
      r,
      w,
      refl,
      at_once 0 w Result.idle (has_event r.event) w (inr (inr (inl (refl, q, refl, refl)))),
    )
    rounds-Ends (suc k) r w q = arrival-Ends k (socket_receive w).0 r w q (rounds-Ends k) refl

    -- `enet_protocol_receive_incoming_commands` without an intercept callback, called with no event
    -- yet, comes to an end, the commands of every datagram included, whatever arrives and whatever the
    -- other callbacks do. It calls the socket until the socket fails, which is its only failure, or has
    -- nothing more, or a complete datagram has given an event, which is reported at once, or 256 times
    -- something has come; and it reports an event exactly if there is one.
    pub receive_incoming_commands-IsEnd :
        (r : Reception) (w : World)
        → has_event r.event ≡ false
        → (result : Result) × (r' : Reception) × (w' : World) × (receive_incoming_commands
              socket_receive none callbacks flush nobody r w
            ≡ some (result, r', w'))
          × IsEnd 256 w result (has_event r'.event) w'
    unfolding receive_incoming_commands
    receive_incoming_commands-IsEnd r w q = rounds-Ends 256 r w q

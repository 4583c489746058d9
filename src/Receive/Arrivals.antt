-- ===== src/Receive/Arrivals.antt =====
-- `enet_protocol_receive_incoming_commands` of src/protocol.c. The socket's results come from a
-- `World`, an argument: each call of the operating system gives its result and the next one.
use enet.Base.{ℕ, zero, suc, ◌+◌, Option, none, some, if◌then◌else◌, u32}
use enet.State.{Session, Peer, Address}
use enet.Receive.{Reception}
use enet.Receive.Header.{Received, Callbacks, handle_incoming_commands, has_event}

-- What `enet_socket_receive` returns: -2, another negative number, 0, or a datagram.
pub data Arrival : Type 0 where
  truncated : Arrival
  lost : Arrival
  nothing : Arrival
  datagram : Address → Received → Arrival

-- What the `intercept` callback returns: 1, -1 or another number.
pub data Verdict : Type 0 where
  dispatch error pass : Verdict

-- The result of a call: 0, 1 or -1.
pub data Result : Type 0 where
  idle event failure : Result

-- A received datagram is counted.
unfoldable pub count_received : Address → Received → Reception → Reception
count_received from g r = record r {
  host = record (r.host) {
    received_address = from;
    total_received_data = u32 (r.host.total_received_data + g.size);
    total_received_packets = u32 (r.host.total_received_packets + 1);
  };
  peer = none;
}

module _ {World : Type 0} (socket_receive : World → Arrival × World)
    (intercept : Option (Received → Reception → Verdict × Received × Reception))
    (callbacks : Callbacks) (flush : Session → Session) (nobody : Peer) where
  -- The datagram's commands, and whether there is an event, which for a refused datagram is one that
  -- the intercept callback has set: the loop goes on, or it ends with a
  -- result. `none` is a loop over commands that is not over.
  unfoldable pub handle_received : Received → Reception → Option (Option Result × Reception)
  handle_received g r = elim (handle_incoming_commands callbacks flush nobody g r) [
    | none ↦ none
    | some t ↦ some (if has_event t.event then some Result.event else none, t)
  ]

  -- What follows the intercept callback.
  unfoldable pub obey : Verdict → Received → Reception → Option (Option Result × Reception)
  obey dispatch g r = some (if has_event r.event then some Result.event else none, r)
  obey error g r = some (some Result.failure, r)
  obey pass g r = handle_received g r

  -- What becomes of a datagram.
  unfoldable pub take_datagram : Received → Reception → Option (Option Result × Reception)
  take_datagram g r = elim intercept [
    | none ↦ handle_received g r
    | some f ↦ let (verdict, g', r') = f g r in obey verdict g' r'
  ]

  -- How a round of the loop ends.
  unfoldable pub finish :
      (Reception → World → Option (Result × Reception × World))
      → World
      → Option (Option Result × Reception)
      → Option (Result × Reception × World)
  finish next w none = none
  finish next w (some (none, r)) = next r w
  finish next w (some (some result, r)) = some (result, r, w)

  -- A round: what was received is handled, and `next` goes on.
  unfoldable pub arrive :
      (Reception → World → Option (Result × Reception × World))
      → Arrival
      → Reception
      → World
      → Option (Result × Reception × World)
  arrive next truncated r w = next r w
  arrive next lost r w = some (Result.failure, r, w)
  arrive next nothing r w = some (Result.idle, r, w)
  arrive next (datagram from g) r w = finish next w (take_datagram g (count_received from g r))

  -- The loop, with so many rounds left.
  unfoldable pub receive_each : ℕ → Reception → World → Option (Result × Reception × World)
  receive_each zero r w = some (Result.idle, r, w)
  receive_each (suc k) r w =
      let (arrival, w') = socket_receive w in arrive (receive_each k) arrival r w'

  -- `enet_protocol_receive_incoming_commands`
  unfoldable pub receive_incoming_commands : Reception → World → Option (Result × Reception × World)
  receive_incoming_commands = receive_each 256

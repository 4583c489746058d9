-- ===== src/Receive.antt =====
-- The loop of `enet_protocol_handle_incoming_commands` of src/protocol.c over the commands of one
-- datagram, whose header has been read. What comes before it is in `Header`, what calls it in
-- `Arrivals` and `Service`.
pub mod Ends
pub mod Isolation
pub mod Header
pub mod Guard
pub mod Arrivals
pub mod Service
pub mod Rounds
use enet.Base.{
  ℕ, zero, suc, ◌+◌, ◌-◌, Bool, true, false, not, ◌&&◌, ◌||◌, List, [], ◌∷◌, Option, none, some,
  ltb, leb, ◌==◌, if◌then◌else◌, length, get_or, set, skip,
}
use enet.Wire.{
  Protocol, Body, Kind, kind, command_size, flag_acknowledge, acknowledge, connect, verify_connect,
  disconnect, ping, send_reliable, send_unreliable, send_fragment, send_unsequenced,
  bandwidth_limit, throttle_configure,
}
use enet.Wire.Bytes.{decode}
use enet.State.{Session, Peer, PeerState, Host, Event}
use enet.Outgoing.{queue_acknowledgement}
use enet.Handlers.Settings.{handle_ping, handle_bandwidth_limit, handle_throttle_configure}
use enet.Handlers.Leave.{handle_disconnect}
use enet.Handlers.Acknowledge.{handle_acknowledge}
use enet.Handlers.Connect.{handle_connect, handle_verify_connect}
use enet.Handlers.Data.{handle_send_reliable, handle_send_unreliable, handle_send_unsequenced}
use enet.Handlers.Fragments.{handle_send_fragment, handle_send_unreliable_fragment}

-- The host, its peers, the place of the sender's peer (`none` is NULL) and the event.
pub record Reception : Type 0 where
  pub host : Host
  pub peers : List Peer
  pub peer : Option ℕ
  pub event : Option Event

-- The bytes of the packet that follow a command.
unfoldable pub payload_length : Body → ℕ
payload_length (send_reliable n) = n
payload_length (send_unreliable _ n) = n
payload_length (send_unsequenced _ n) = n
payload_length (send_fragment f) = f.data_length
payload_length _ = 0

abbrev pub is_connect : Kind → Bool
is_connect Kind.connect = true
is_connect _ = false

-- A sender without a peer may only ask for a connection.
unfoldable pub lacks_peer : Protocol → Reception → Bool
lacks_peer c r = elim r.peer [ none ↦ not (is_connect (kind c.command)) | some _ ↦ false ]

is_unreliable_fragment : Kind → Bool
is_unreliable_fragment Kind.send_unreliable_fragment = true
is_unreliable_fragment _ = false

-- Whether the bytes begin with a whole command of a known kind.
unfoldable pub is_whole : List ℕ → Bool
is_whole bytes =
    let size = command_size (decode bytes).command in
    leb 4 (length bytes) && not (size == 0) && leb size (length bytes)

-- Whether a command is acknowledged in this state of its peer.
unfoldable pub is_answered : PeerState → Kind → Bool
is_answered PeerState.disconnecting k = false
is_answered PeerState.acknowledging_connect k = false
is_answered PeerState.disconnected k = false
is_answered PeerState.timedout k = false
is_answered PeerState.zombie k = false
is_answered PeerState.acknowledging_disconnect k = is_disconnection k
  where
    is_disconnection : Kind → Bool
    is_disconnection Kind.disconnect = true
    is_disconnection _ = false
is_answered _ k = true

-- The acknowledgement of a command, with the sent time of the datagram.
unfoldable pub answer : Protocol → ℕ → Session → Session
answer c sent_time s =
    if is_answered s.peer.state (kind c.command) then (queue_acknowledgement c sent_time s).1 else s

abbrev without_event : Option Event → Bool × Session → Bool × Session × Option Event
without_event event (ok, s) = (ok, s, event)

module _ (flush : Session → Session) (nobody : Peer) where
  -- The handlers for a peer: `true` is the result 0. `bytes` is what follows the command.
  unfoldable pub handle_for_peer :
      Protocol → List ℕ → Option Event → Session → Bool × Session × Option Event
  unfolding is_unreliable_fragment
  handle_for_peer c bytes event s = elim c.body [
    | acknowledge number sent ↦ handle_acknowledge flush c.channel_id number sent event s
    | connect _ ↦ (false, s, event)
    | verify_connect v ↦ handle_verify_connect v event s
    | disconnect reason ↦ (true, handle_disconnect c reason s, event)
    | ping ↦ without_event event (handle_ping s)
    | send_reliable n ↦ without_event event (handle_send_reliable c n bytes s)
    | send_unreliable _ n ↦ without_event event (handle_send_unreliable c n bytes s)
    | send_unsequenced g n ↦ without_event event (handle_send_unsequenced c g n bytes s)
    | send_fragment f ↦ without_event event (
        if is_unreliable_fragment (kind c.command)
        then handle_send_unreliable_fragment c f bytes s
        else handle_send_fragment c f bytes s)
    | bandwidth_limit i o ↦ without_event event (handle_bandwidth_limit i o s)
    | throttle_configure i a d ↦ without_event event (handle_throttle_configure i a d s)
  ]

  -- A request for a connection, from nobody known: it gives the datagram its peer.
  unfoldable pub handle_request : Protocol → Reception → Bool × Reception
  handle_request c r = elim c.body [
    | connect request ↦
        let (accepted, h, peers) = handle_connect nobody request r.host r.peers in
        elim accepted [
          | none ↦ (false, record r { host = h; peers = peers })
          | some i ↦ (true, record r { host = h; peers = peers; peer = some i })
        ]
    | _ ↦ (false, r)
  ]

  -- The `switch` over the commands.
  unfoldable pub handle_command : Protocol → List ℕ → Reception → Bool × Reception
  handle_command c bytes r = elim r.peer [
    | none ↦ handle_request c r
    | some i ↦
        let s : Session = record { host = r.host; peer = get_or r.peers i nobody } in
        let (ok, s', event) = handle_for_peer c bytes r.event s in
        (ok, record r { host = s'.host; peers = set r.peers i s'.peer; event = event })
  ]

  -- What follows a command that was handled: `false` ends the loop, since a datagram without a sent
  -- time cannot be answered.
  unfoldable pub acknowledge_command : Protocol → Option ℕ → Reception → Bool × Reception
  acknowledge_command c sent_time r = elim r.peer [
    | none ↦ (true, r)
    | some i ↦
        let s : Session = record { host = r.host; peer = get_or r.peers i nobody } in
        let answered : Bool × Reception = elim sent_time [
          | none ↦ (false, r)
          | some t ↦ (
            true,
            record r { host = (answer c t s).host; peers = set r.peers i (answer c t s).peer },
          )
        ] in
        if flag_acknowledge c.command then answered else (true, r)
  ]

  -- The loop over the bytes of the datagram; every command takes four bytes at least, and `none` is a
  -- loop that is not over.
  unfoldable pub receive_commands : ℕ → Option ℕ → List ℕ → Reception → Option Reception
  receive_commands zero sent_time bytes r = none
  receive_commands (suc fuel) sent_time bytes r =
      let c = decode bytes in
      let after = skip (command_size c.command) bytes in
      let (handled, r') = handle_command c after r in
      let (goes_on, r'') = acknowledge_command c sent_time r' in
      let rest = receive_commands fuel sent_time (skip (payload_length c.body) after) r'' in
      if not (is_whole bytes)
      then some r
      else if lacks_peer c r
      then some r
      else if not handled
      then some r'
      else if goes_on
      then rest
      else some r''

  -- The commands of a datagram, as many of them as are whole.
  unfoldable pub handle_datagram : Option ℕ → List ℕ → Reception → Option Reception
  handle_datagram sent_time bytes r = receive_commands (suc (length bytes)) sent_time bytes r

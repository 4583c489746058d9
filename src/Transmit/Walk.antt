-- ===== src/Transmit/Walk.antt =====
-- The loop of `enet_protocol_check_outgoing_commands` (src/protocol.c): its state, the order in which
-- it takes the commands, and the tests that hold a command back.
use enet.Base.{
  ℕ, zero, suc, ◌+◌, ◌-◌, ◌*◌, ◌/◌, ◌%◌, Bool, true, false, ◌&&◌, ◌||◌, List, [], ◌∷◌, ◌++◌, Option,
  none, some, ltb, leb, ◌==◌, if◌then◌else◌, u16, u32, sub64, max, length, get_or,
}
use enet.Time.{time_less}
use enet.Wire.{command_size}
use enet.State.{
  Session, Peer, Channel, OutgoingCommand, throttle_scale, reliable_window_size,
  reliable_windows_count, free_reliable_windows,
}
use enet.Outgoing.{has_packet}
use enet.Transmit.{Datagram, maximum_packet_commands, buffer_maximum}

-- The state of the loop: each of the peer's two queues as the commands passed and those from the
-- current one on, `windowWrap`, `canPing`, `sentUnreliableCommands`, and what else changes.
pub record Walk : Type 0 where
  pub passed : List OutgoingCommand
  pub rest : List OutgoingCommand
  pub reliable_passed : List OutgoingCommand
  pub reliable_rest : List OutgoingCommand
  pub window_wrap : Bool
  pub can_ping : Bool
  pub unreliable : List OutgoingCommand
  pub datagram : Datagram
  pub session : Session

-- The command of the two queues that was queued first; the flag tells the reliable queue.
unfoldable pub choose : Walk → Option (OutgoingCommand × Bool × Walk)
choose w = elim w.rest [
  | [] ↦ from_reliable w.reliable_rest
  | o ∷ os ↦ elim w.reliable_rest [
    | [] ↦ some (o, false, record w { rest = os })
    | r ∷ rs ↦
        if time_less r.queue_time o.queue_time
        then some (r, true, record w { reliable_rest = rs })
        else some (o, false, record w { rest = os })
  ]
]
  where
    from_reliable : List OutgoingCommand → Option (OutgoingCommand × Bool × Walk)
    from_reliable [] = none
    from_reliable (r ∷ rs) = some (r, true, record w { reliable_rest = rs })

-- `continue`: the command stays where it is.
unfoldable pub pass : OutgoingCommand → Bool → Walk → Walk
pass o reliable w =
    if reliable
    then record w { reliable_passed = w.reliable_passed ++ (o ∷ []) }
    else record w { passed = w.passed ++ (o ∷ []) }

-- `currentSendReliableCommand = enet_list_end (...)`
abbrev pub close_reliable : Walk → Walk
close_reliable w = record w {
  reliable_passed = w.reliable_passed ++ w.reliable_rest;
  reliable_rest = [];
}

-- Whether one of the `n` windows from this one on is in use, round the 16 windows.
abbrev pub any_used : List Bool → ℕ → ℕ → Bool
any_used used window zero = false
any_used used window (suc n) =
    get_or used (window % reliable_windows_count) false || any_used used (suc window) n

-- Whether a command that starts a window has to wait: the window before is full, or one of the
-- windows that must be free is in use.
unfoldable pub is_blocked : Channel → OutgoingCommand → Bool
is_blocked c o =
    let window = o.reliable_sequence_number / reliable_window_size in
    let before = (window + reliable_windows_count - 1) % reliable_windows_count in
    ltb o.send_attempts 1
    && o.reliable_sequence_number % reliable_window_size == 0
    && (leb reliable_window_size (get_or c.reliable_windows before 0)
        || any_used c.used_reliable_windows window (free_reliable_windows + 2))

-- Whether the data in transit leaves no room for the command's.
unfoldable pub exceeds_window : Peer → OutgoingCommand → Bool
exceeds_window p o =
    let window = u32 (p.packet_throttle * p.window_size) / throttle_scale in
    has_packet o.packet
    && ltb (max window p.mtu) (u32 (p.reliable_data_in_transit + o.fragment_length))

-- Whether the datagram has no room for the command.
unfoldable pub lacks_space : ℕ → OutgoingCommand → Datagram → Bool
lacks_space mtu o g =
    let size = command_size o.command.command in
    let room = sub64 mtu g.packet_size in
    leb maximum_packet_commands g.command_count
    || leb buffer_maximum (length g.buffers + 1)
    || ltb room size
    || (has_packet o.packet && ltb (u16 room) (u16 (size + o.fragment_length)))

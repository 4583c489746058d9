-- ===== src/Incoming/Dispatch.antt =====
-- `enet_peer_dispatch_incoming_reliable_commands` and `…_unreliable_commands` of src/peer.c.
use enet.Base.{
  ℕ, ◌+◌, ◌-◌, ◌/◌, Bool, true, false, not, ◌&&◌, List, [], ◌∷◌, ◌++◌, Option, ltb, leb, ◌==◌,
  if◌then◌else◌, u16, length, is_empty, zero, suc, take,
}
use enet.Wire.{Kind, kind}
use enet.State.{Session, IncomingCommand, reliable_window_size, free_reliable_windows}
use enet.Lifecycle.{remove_incoming_commands}
use enet.Outgoing.{channel_at, set_channel, window_of}
use enet.Events.{enter_dispatch_queue}

-- The number that a channel stands at after a command: its own, or that of its last fragment.
unfoldable pub number_after : IncomingCommand → ℕ
number_after c =
    if ltb 0 c.fragment_count
    then u16 (c.reliable_sequence_number + (c.fragment_count - 1))
    else c.reliable_sequence_number

-- Whether the command is complete and the next one after the number.
unfoldable pub is_next : ℕ → IncomingCommand → Bool
is_next current c = c.fragments_remaining == 0 && c.reliable_sequence_number == u16 (current + 1)

-- The loop: the commands that are ready, the others, and the number reached.
unfoldable pub split_ready :
    ℕ → List IncomingCommand → List IncomingCommand × List IncomingCommand × ℕ
split_ready current [] = ([], [], current)
split_ready current (c ∷ cs) =
    let (ready, rest, reached) = split_ready (number_after c) cs in
    if is_next current c then (c ∷ ready, rest, reached) else ([], c ∷ cs, current)

abbrev drop : ℕ → List IncomingCommand → List IncomingCommand
drop zero xs = xs
drop (suc n) [] = []
drop (suc n) (x ∷ xs) = drop n xs

-- The state of the unreliable loop. `passed` are the commands before `startCommand` that stay in
-- the queue, `pending` those from `startCommand` up to the current one, and `dropped` counts the
-- commands of the queue before `droppedCommand`.
pub record Sweep : Type 0 where
  pub passed : List IncomingCommand
  pub pending : List IncomingCommand
  pub dropped : ℕ
  pub unreliable : ℕ
  pub dispatched : List IncomingCommand

-- `enet_list_move` of the pending commands to the end of the dispatched ones.
abbrev hand_over : Sweep → Sweep
hand_over w = record w { pending = []; dispatched = w.dispatched ++ w.pending }

abbrev pass_by : IncomingCommand → Sweep → Sweep
pass_by c w = record w { passed = w.passed ++ (c ∷ []) }

is_unsequenced : Kind → Bool
is_unsequenced Kind.send_unsequenced = true
is_unsequenced _ = false

-- The incomplete command of the current reliable number.
wait_for : IncomingCommand → Sweep → Sweep
wait_for c w =
    let here = length w.passed in
    if not (is_empty w.pending)
    then pass_by c (record (hand_over w) { dropped = here })
    else if w.dropped == here
    then pass_by c w
    else pass_by c (record w { dropped = here - 1 })

-- The command of an older reliable number.
outdate : IncomingCommand → Sweep → Sweep
outdate c w = pass_by c (record (hand_over w) { dropped = length w.passed + 1 })

-- Whether a command belongs to a reliable number that is still to come: the loop ends there.
is_early : ℕ → ℕ → Bool
unfolding window_of
is_early current n =
    leb (current / reliable_window_size) (window_of current n)
    && ltb (window_of current n) (current / reliable_window_size + free_reliable_windows - 1)

-- After the loop: what is pending is handed over too.
finish : Sweep → Sweep
finish w = if is_empty w.pending then w else record (hand_over w) { dropped = length w.passed }

-- The loop over the rest of the queue, with what it leaves of it.
unfoldable pub sweep : ℕ → List IncomingCommand → Sweep → Sweep × List IncomingCommand
unfolding is_unsequenced wait_for outdate is_early finish
sweep current [] w = (finish w, [])
sweep current (c ∷ cs) w =
    let ready = record w { pending = w.pending ++ (c ∷ []) } in
    let numbered = record ready { unreliable = c.unreliable_sequence_number } in
    let on_unsequenced = sweep current cs ready in
    let on_ready = sweep current cs numbered in
    let on_waiting = sweep current cs (wait_for c w) in
    let on_old = sweep current cs (outdate c w) in
    if is_unsequenced (kind c.command.command)
    then on_unsequenced
    else if c.reliable_sequence_number == current
    then (if c.fragments_remaining == 0 then on_ready else on_waiting)
    else if is_early current c.reliable_sequence_number
    then (finish w, c ∷ cs)
    else on_old

-- `enet_peer_dispatch_incoming_unreliable_commands`, of the channel with this number. The peer
-- enters the dispatch queue if anything was handed over.
unfoldable pub dispatch_unreliable : ℕ → Option ℕ → Session → Session
dispatch_unreliable id exclude s =
    let c = channel_at s.peer id in
    let start : Sweep = record {
      passed = [];
      pending = [];
      dropped = 0;
      unreliable = c.incoming_unreliable_sequence_number;
      dispatched = [];
    } in
    let (w, rest) =
      sweep c.incoming_reliable_sequence_number c.incoming_unreliable_commands start in
    let queue = w.passed ++ rest in
    let s₁ = record s {
      peer = record (s.peer) { dispatched_commands = s.peer.dispatched_commands ++ w.dispatched };
    } in
    let s₂ = if is_empty w.dispatched then s₁ else enter_dispatch_queue s₁ in
    let (kept, s₃) = remove_incoming_commands exclude (take w.dropped queue) s₂ in
    record s₃ {
      peer = set_channel s₃.peer id (record c {
        incoming_unreliable_sequence_number = w.unreliable;
        incoming_unreliable_commands = kept ++ drop w.dropped queue;
      });
    }

-- The ready commands go to the application, and the channel stands at the number reached.
unfoldable pub hand_ready : ℕ → List IncomingCommand → List IncomingCommand → ℕ → Session → Session
hand_ready id ready rest reached s =
    let c = record (channel_at s.peer id) {
      incoming_reliable_sequence_number = reached;
      incoming_unreliable_sequence_number = 0;
      incoming_reliable_commands = rest;
    } in
    record s {
      peer = record (set_channel s.peer id c) {
        dispatched_commands = s.peer.dispatched_commands ++ ready;
      };
    }

-- `enet_peer_dispatch_incoming_reliable_commands`
unfoldable pub dispatch_reliable : ℕ → Option ℕ → Session → Session
dispatch_reliable id exclude s =
    let c = channel_at s.peer id in
    let (ready, rest, reached) =
      split_ready c.incoming_reliable_sequence_number c.incoming_reliable_commands in
    let moved = enter_dispatch_queue (hand_ready id ready rest reached s) in
    if is_empty ready
    then s
    else if is_empty c.incoming_unreliable_commands
    then moved
    else dispatch_unreliable id exclude moved

-- ===== src/Incoming/Search.antt =====
-- The search through a channel's queue in `enet_peer_queue_incoming_command` of src/peer.c, which
-- goes backwards from its end.
use enet.Base.{ℕ, ◌+◌, ◌-◌, ◌/◌, Bool, ◌||◌, List, [], ◌∷◌, ltb, leb, if◌then◌else◌}
use enet.State.{IncomingCommand, reliable_window_size, free_reliable_windows}
use enet.Outgoing.{window_of}

-- Whether a number lies outside the windows that are accepted after the current number.
unfoldable pub outside_window : ℕ → ℕ → Bool
outside_window current n =
    ltb (window_of current n) (current / reliable_window_size)
    || leb (current / reliable_window_size + free_reliable_windows - 1) (window_of current n)

-- What the loop does at a queued command: go on to the one before it, stop here, or discard the
-- new command.
pub data Verdict : Type 0 where
  skip stop discard : Verdict

-- The reliable queue, at the channel's current number, the new number and the queued one.
unfoldable pub judge_reliable : ℕ → ℕ → ℕ → Verdict
judge_reliable current new queued =
    let compared =
      if leb queued new
      then (if ltb queued new then Verdict.stop else Verdict.discard)
      else Verdict.skip in
    if leb current new
    then (if ltb queued current then Verdict.skip else compared)
    else if leb current queued
    then Verdict.stop
    else compared

-- The unreliable queue: within one reliable number the unreliable numbers decide.
unfoldable pub judge_unreliable : ℕ → ℕ → ℕ → ℕ → ℕ → Verdict
judge_unreliable current new new_unreliable queued queued_unreliable =
    let compared =
      if ltb queued new
      then Verdict.stop
      else if ltb new queued
      then Verdict.skip
      else if leb queued_unreliable new_unreliable
      then (if ltb queued_unreliable new_unreliable then Verdict.stop else Verdict.discard)
      else Verdict.skip in
    if leb current new
    then (if ltb queued current then Verdict.skip else compared)
    else if leb current queued
    then Verdict.stop
    else compared

-- Where the search ended: at the front, at a duplicate, or with the new command in its place.
pub data Place : Type 0 where
  front duplicate : Place
  placed : List IncomingCommand → Place

abbrev pub at_command : Verdict → IncomingCommand → IncomingCommand → List IncomingCommand → Place
at_command Verdict.skip new c cs = Place.front
at_command Verdict.stop new c cs = Place.placed (c ∷ new ∷ cs)
at_command Verdict.discard new c cs = Place.duplicate

-- The last command is judged first.
unfoldable pub search_back :
    (IncomingCommand → Verdict) → IncomingCommand → List IncomingCommand → Place
search_back judge new [] = Place.front
search_back judge new (c ∷ cs) = elim (search_back judge new cs) [
  | Place.front ↦ at_command (judge c) new c cs
  | Place.duplicate ↦ Place.duplicate
  | Place.placed l ↦ Place.placed (c ∷ l)
]

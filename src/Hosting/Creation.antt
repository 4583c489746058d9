-- ===== src/Hosting/Creation.antt =====
-- What `enet_host_create` gives, and what it gives back when it fails (src/host.c).
use enet.Base.{
  ℕ, zero, suc, ◌+◌, ◌-◌, ◌≤◌, ◌≡◌, ◌∙◌, refl, ap, Bool, true, false, not, ◌||◌, List, [], ◌∷◌,
  ◌++◌, Option, none, some, ltb, if◌then◌else◌, length, arith,
}
use enet.Wire.{minimum_channel_count, maximum_channel_count, maximum_peer_id}
use enet.State.{Peer, PeerState, Host, Address}
use enet.Address.{AddressType}
use enet.Packet.{first_allocation}
use enet.Lifecycle.{
  on_disconnect, reset, reset_fields, reset_queues, leave_dispatch_queue, reset_outgoing_queues,
  reset_incoming_queues, reset_incoming_commands, reset_outgoing_commands, remove_incoming_commands,
}
use enet.Lifecycle.Stale.{reset_lem}
use enet.Hosting.{channel_limit}
use enet.Hosting.Create.{
  Memory, Call, allocate, free, open_socket, close_socket, System, is_misfit, new_host, blank_peer,
  make_peers, later, binds, create, destroy,
}

-- The blocks and the sockets that are held after the calls, if none is given back that is not held.
unfoldable pub held : List Call → ℕ → ℕ → ℕ × ℕ
held [] blocks sockets = (blocks, sockets)
held (allocate ∷ cs) blocks sockets = held cs (blocks + 1) sockets
held (free ∷ cs) blocks sockets = held cs (blocks - 1) sockets
held (open_socket ∷ cs) blocks sockets = held cs blocks (sockets + 1)
held (close_socket ∷ cs) blocks sockets = held cs blocks (sockets - 1)

-- A peer as a new host has it.
pub record IsFresh (i : ℕ) (p : Peer) : Type 0 where
  pub state : p.state ≡ PeerState.disconnected
  pub place : p.incoming_peer_id ≡ i
  pub channels : p.channels ≡ []
  pub dispatched : p.dispatched_commands ≡ []
  pub sent : p.sent_reliable_commands ≡ []
  pub waiting : p.outgoing_commands ≡ []
  pub waiting_reliable : p.outgoing_send_reliable_commands ≡ []
  pub acknowledgements : p.acknowledgements ≡ []
  pub undispatched : p.needs_dispatch ≡ false

abbrev pub AllFresh : ℕ → List Peer → Type 0
AllFresh i [] = Unit {0}
AllFresh i (p ∷ ps) = IsFresh i p × AllFresh (suc i) ps

-- A host that counts nobody and has nothing to dispatch.
pub record IsIdle (h : Host) : Type 0 where
  pub connected : h.connected_peers ≡ 0
  pub limited : h.bandwidth_limited_peers ≡ 0
  pub queue : h.dispatch_queue ≡ []
  pub few_channels : h.channel_limit ≤ maximum_channel_count
  pub some_channels : minimum_channel_count ≤ h.channel_limit

reset_blank : (i : ℕ) (h : Host) → IsFresh i (reset (record { host = h; peer = blank_peer i })).peer
unfolding blank_peer
reset_blank i h =
    let (a, b, c, d, e, f, g, k, l, m) = reset_lem (record { host = h; peer = blank_peer i }) in
    record {
      state = a;
      place = b;
      channels = c;
      dispatched = d;
      sent = e;
      waiting = f;
      waiting_reliable = g;
      acknowledgements = k;
      undispatched = l;
    }

-- A blank peer has nothing that its reset could give back.
reset_blank-host : (i : ℕ) (h : Host) → (reset (record { host = h; peer = blank_peer i })).host ≡ h
unfolding reset on_disconnect blank_peer reset_fields reset_queues leave_dispatch_queue
    reset_outgoing_queues reset_incoming_queues reset_incoming_commands reset_outgoing_commands
    remove_incoming_commands
reset_blank-host i h = refl

make_peers_lem :
    (count i : ℕ) (h : Host)
    → ((make_peers count i h).0 ≡ h)
      × (length (make_peers count i h).1 ≡ count)
      × AllFresh i (make_peers count i h).1
unfolding make_peers
make_peers_lem zero i h = (refl, refl, tt)
make_peers_lem (suc count) i h =
    let h' = (reset (record { host = h; peer = blank_peer i })).host in
    let (a, b, c) = make_peers_lem count (suc i) h' in
    (a ∙ reset_blank-host i h, ap suc b, (reset_blank i h, c))

new_host-IsIdle :
    (seed channels incoming outgoing : ℕ) (m : Memory)
    → IsIdle (new_host seed channels incoming outgoing m)
unfolding new_host channel_limit
new_host-IsIdle seed channels incoming outgoing m = record {
  connected = refl;
  limited = refl;
  queue = refl;
  few_channels = ground arith;
  some_channels = ground arith;
}

-- What a call of `enet_host_create` may come to: nothing is held, or the host and its peers are as they
-- should be, two blocks and a socket are held, and destroying the host would give them back.
abbrev pub Outcome : ℕ → Option (Host × List Peer) × List Call → Type 0
Outcome count (none, calls) = held calls 0 0 ≡ (0, 0)
Outcome count (some (h, peers), calls) =
    (count ≤ maximum_peer_id)
    × IsIdle h
    × (length peers ≡ count)
    × AllFresh 0 peers
    × (held calls 0 0 ≡ (2, 1))
    × (held (calls ++ (destroy h peers).1) 0 0 ≡ (0, 0))

created-Outcome :
    (count : ℕ) (h : Host)
    → count ≤ maximum_peer_id
    → IsIdle h
    → Outcome count (some (make_peers count 0 h), allocate ∷ allocate ∷ open_socket ∷ [])
unfolding held destroy
created-Outcome count h le v =
    let (a, b, c) = make_peers_lem count 0 h in (le, rw a v, b, c, refl, refl)

either-Outcome :
    (count : ℕ) (b : Bool) (x y : Option (Host × List Peer) × List Call)
    → (b ≡ true → Outcome count x)
    → (b ≡ false → Outcome count y)
    → Outcome count (if b then x else y)
either-Outcome count true x y p q = p refl
either-Outcome count false x y p q = q refl

small_enough :
    (count : ℕ) (b : Bool) → (ltb maximum_peer_id count || b) ≡ false → count ≤ maximum_peer_id
small_enough count b h = ground (arith, h)

-- `enet_host_create` either fails and holds nothing any more, whichever step failed, or it gives a host
-- of at most 4095 peers, all disconnected, at their places and with empty queues, that counts nobody as
-- connected, has an empty dispatch queue and a valid limit on channels; then it holds two blocks and a
-- socket, which destroying the host gives back.
pub create-Outcome :
    (sys : System) (type : AddressType) (address : Option Address)
    (count channels incoming outgoing : ℕ) (m : Memory)
    → Outcome count (create sys type address count channels incoming outgoing m)
unfolding create held
create-Outcome sys type address count channels incoming outgoing m =
    let Attempt = Option (Host × List Peer) × List Call in
    let h = new_host sys.seed channels incoming outgoing (later (later m)) in
    let made : Attempt = (some (make_peers count 0 h), allocate ∷ allocate ∷ open_socket ∷ []) in
    let unbound : Attempt =
      (none, allocate ∷ allocate ∷ open_socket ∷ close_socket ∷ free ∷ free ∷ []) in
    let unopened : Attempt = (none, allocate ∷ allocate ∷ free ∷ free ∷ []) in
    let no_peers : Attempt = (none, allocate ∷ free ∷ []) in
    let nothing : Attempt = (none, []) in
    let misfit = ltb maximum_peer_id count || is_misfit type address in
    let no_host = not (first_allocation m.allocations) in
    let no_array = not (first_allocation (later m).allocations) in
    let no_socket = not (sys.socket_create type) in
    let no_bind = not (binds sys address) in
    let bound = if no_bind then unbound else made in
    let opened = if no_socket then unopened else bound in
    let allocated = if no_array then no_peers else opened in
    let started = if no_host then nothing else allocated in
    let split = either-Outcome count in
    split misfit nothing started (λ _. refl)
      (λ e.
        split no_host nothing allocated (λ _. refl)
          (λ _.
            split no_array no_peers opened (λ _. refl)
              (λ _.
                split no_socket unopened bound (λ _. refl)
                  (λ _.
                    split no_bind unbound made (λ _. refl)
                      (λ _.
                        created-Outcome count h (small_enough count (is_misfit type address) e) (
                          new_host-IsIdle sys.seed channels incoming outgoing
                            (later (later m))))))))

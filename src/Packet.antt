-- ===== src/Packet.antt =====
-- src/packet.c and the allocator of src/callbacks.c: packets in the host's store.
pub mod Checksum
use enet.Base.{
  ℕ, ◌+◌, Bool, true, false, not, ◌||◌, List, [], ◌∷◌, Option, none, some, leb, ◌==◌, if◌then◌else◌,
  take, sub64, set_bit,
}
use enet.State.{Packet, Host, update, flag_no_allocate}

-- `enet_malloc`: whether the coming call succeeds
abbrev pub first_allocation : List Bool → Bool
first_allocation [] = true
first_allocation (b ∷ bs) = b

abbrev pub later_allocations : List Bool → List Bool
later_allocations [] = []
later_allocations (b ∷ bs) = bs

unfoldable pub malloc : Host → Bool × Host
malloc h =
    (first_allocation h.allocations, record h { allocations = later_allocations h.allocations })

abbrev pub packet_at : Host → ℕ → Packet
packet_at h p = h.packets p

abbrev pub set_packet : Host → ℕ → Packet → Host
set_packet h p k = record h { packets = update h.packets p k }

-- A block of its own for a packet or a command: the next number.
abbrev pub take_block : Host → ℕ × Host
take_block h = (h.next_block, record h { next_block = h.next_block + 1 })

new_packet : Option (List ℕ) → ℕ → ℕ → Packet
new_packet bytes data_length flags = record {
  reference_count = 0;
  flags = flags;
  bytes = bytes;
  data_length = data_length;
  free_callback = false;
  acknowledge_callback = false;
  remaining_fragments = 0;
  free_calls = 0;
  acknowledge_calls = 0;
  freed = 0;
}

place : Host → Packet → Option ℕ × Host
place h k = let (p, h') = take_block h in (some p, set_packet h' p k)

-- What the allocated bytes hold when `enet_packet_create` returns.
filled : Host → Option (List ℕ) → ℕ → List ℕ
filled h none n = h.fresh_bytes n
filled h (some bytes) n = take n bytes

-- `enet_packet_create`: `none` is NULL. `bytes` are the bytes at `data`, `dataLength` of them at
-- least.
unfoldable pub packet_create : Option (List ℕ) → ℕ → ℕ → Host → Option ℕ × Host
unfolding malloc new_packet place filled
packet_create bytes data_length flags h =
    let (packet_ok, h₁) = malloc h in
    let (data_ok, h₂) = malloc h₁ in
    if not packet_ok
    then (none, h₁)
    else if flag_no_allocate flags
    then place h₁ (new_packet bytes data_length flags)
    else if data_length == 0
    then place h₁ (new_packet none data_length flags)
    else if not data_ok
    then (none, h₂)
    else place h₂ (new_packet (some (filled h bytes data_length)) data_length flags)

-- `enet_packet_destroy`, of a packet that is not NULL
unfoldable pub packet_destroy : ℕ → Host → Host
packet_destroy p h =
    let k = packet_at h p in
    set_packet h p (record k {
      free_calls = if k.free_callback then k.free_calls + 1 else k.free_calls;
      freed = k.freed + 1;
    })

-- `-- packet -> referenceCount; if (packet -> referenceCount == 0) enet_packet_destroy (packet)`
unfoldable pub release : ℕ → Host → Host
unfolding packet_destroy
release p h =
    let k = packet_at h p in
    let h' = set_packet h p (record k { reference_count = sub64 k.reference_count 1 }) in
    if sub64 k.reference_count 1 == 0 then packet_destroy p h' else h'

-- The same with `packet -> flags |= ENET_PACKET_FLAG_SENT` before the packet is destroyed.
unfoldable pub release_sent : ℕ → Host → Host
unfolding packet_destroy
release_sent p h =
    let k = packet_at h p in
    let h' = set_packet h p (record k { reference_count = sub64 k.reference_count 1 }) in
    let k' = record k { reference_count = sub64 k.reference_count 1; flags = set_bit 8 k.flags } in
    if sub64 k.reference_count 1 == 0 then packet_destroy p (set_packet h p k') else h'

-- The first `n` bytes of `old` over a fresh block.
overwrite : List ℕ → List ℕ → List ℕ
overwrite [] fresh = fresh
overwrite (x ∷ xs) [] = []
overwrite (x ∷ xs) (y ∷ ys) = x ∷ overwrite xs ys

resized : Host → Packet → ℕ → List ℕ
unfolding overwrite
resized h k n = elim k.bytes [
  | none ↦ h.fresh_bytes n
  | some old ↦ overwrite (take k.data_length old) (h.fresh_bytes n)
]

-- `enet_packet_resize`: `true` is the result 0, `false` is -1.
unfoldable pub packet_resize : ℕ → ℕ → Host → Bool × Host
unfolding malloc resized
packet_resize p n h =
    let k = packet_at h p in
    let (allocated, h') = malloc h in
    if leb n k.data_length || flag_no_allocate k.flags
    then (true, set_packet h p (record k { data_length = n }))
    else if not allocated
    then (false, h')
    else (true, set_packet h' p (record k { bytes = some (resized h k n); data_length = n }))

-- `enet_packet_dispose`
unfoldable pub packet_dispose : ℕ → Host → Host
unfolding packet_destroy
packet_dispose p h = if (packet_at h p).reference_count == 0 then packet_destroy p h else h

-- ===== src/State/PacketData.antt =====
-- `ENetPacket` of include/enet6/enet.h.
use enet.Base.{ℕ, Bool, List, Option, has_bit}

-- `bytes` is what `data` points to (`none` is NULL). The callbacks are the application's: `true` is
-- a callback that is set, and the two counters count the calls of each. `freed` counts how often
-- the structure went to `enet_free`.
pub record Packet : Type 0 where
  pub reference_count : ℕ
  pub flags : ℕ
  pub bytes : Option (List ℕ)
  pub data_length : ℕ
  pub free_callback : Bool
  pub acknowledge_callback : Bool
  pub remaining_fragments : ℕ
  pub free_calls : ℕ
  pub acknowledge_calls : ℕ
  pub freed : ℕ

-- `ENET_PACKET_FLAG_RELIABLE` and the flags after it
abbrev pub flag_reliable : ℕ → Bool
flag_reliable flags = has_bit 0 flags

abbrev pub flag_unsequenced_packet : ℕ → Bool
flag_unsequenced_packet flags = has_bit 1 flags

abbrev pub flag_no_allocate : ℕ → Bool
flag_no_allocate flags = has_bit 2 flags

abbrev pub flag_unreliable_fragment : ℕ → Bool
flag_unreliable_fragment flags = has_bit 3 flags

-- ===== src/Handlers/Assembly.antt =====
-- What the fragments of one packet make of it (src/protocol.c, the last part of
-- `enet_protocol_handle_send_fragment` and `…_unreliable_fragment`), in whatever order and however
-- often they arrive. `Bits` has the two arrays that are written, `Complete` the end; `Delivery` has
-- the composition with the cut of the sender, and `Written` and `Stored` are about one fragment in
-- its channel.
pub mod Bits
pub use Bits.{slice}
pub mod Complete
pub mod Delivery
pub mod Written
pub mod Stored
use enet.Base.{
  ℕ, zero, suc, ◌+◌, ◌-◌, ◌^◌, ◌<◌, ◌≤◌, ◌≡◌, ◌⊎◌, inl, inr, refl, ap, sym, ◌∙◌, Bool, true, false,
  ◌&&◌, ◌||◌, List, [], ◌∷◌, none, some, ltb, leb, ◌==◌, if◌then◌else◌, u32, sub32, take, skip,
  length, get_or, set, replicate, arith, Bool-cases, ==_iff, length-set, get_or-set_self,
  get_or-set_other, length-replicate, get_or-replicate, take-take,
}
use enet.State.{IncomingCommand, Packet}
use enet.Wire.{SendFragment}
use enet.Handlers.Assembly.Bits.{
  trues, trues-le, overlay-slice, length-overlay, same_bytes, trues-set, trues-all, all-trues,
  trues-replicate,
}
use enet.Handlers.Fragments.{has_fragment, mark_fragment, fill_fragment, overlay}

-- A fragment arrives for a command and its packet: what `store_fragment` does to the two.
abbrev pub arrive_fragment :
    SendFragment → List ℕ → IncomingCommand → Packet → IncomingCommand × Packet
arrive_fragment f bytes d k =
    if has_fragment d f.fragment_number
    then (d, k)
    else (mark_fragment f.fragment_number d, fill_fragment f bytes k)

-- The fragments of a packet with these bytes: numbered, within the packet, and together all of it.
pub record IsCutting (bytes : List ℕ) (count : ℕ) (frag : ℕ → SendFragment) : Type 0 where
  pub number : (i : ℕ) → i < count → (frag i).fragment_number ≡ i
  pub inside : (i : ℕ) → i < count → (frag i).fragment_offset + (frag i).data_length ≤ length bytes
  pub cover :
      (j : ℕ)
      → j < length bytes
      → (i : ℕ) × (i < count)
        × ((frag i).fragment_offset ≤ j)
        × (j < (frag i).fragment_offset + (frag i).data_length)

-- The arrivals of a list of fragments, by their numbers, each with the bytes that it carries.
unfoldable pub arrive_all :
    List ℕ → (ℕ → SendFragment) → List ℕ → IncomingCommand → Packet → IncomingCommand × Packet
arrive_all bytes frag [] d k = (d, k)
arrive_all bytes frag (i ∷ is) d k =
    let f = frag i in
    let carried = slice f.fragment_offset f.data_length bytes in
    let (d', k') = arrive_fragment f carried d k in arrive_all bytes frag is d' k'

-- A command that waits for all its fragments, and a packet of the right length, whatever it holds.
pub record Awaits (length_of_packet count : ℕ) (d : IncomingCommand) (k : Packet) : Type 0 where
  pub fragments : d.fragments ≡ some (replicate count false)
  pub fragments_remaining : d.fragments_remaining ≡ count
  pub data_length : k.data_length ≡ length_of_packet
  pub old : List ℕ
  pub bytes : k.bytes ≡ some old
  pub length-old : length old ≡ length_of_packet

abbrev pub member : ℕ → List ℕ → Bool
member i [] = false
member i (k ∷ ks) = k == i || member i ks

abbrev pub AllBelow : ℕ → List ℕ → Type 0
AllBelow count [] = Unit {0}
AllBelow count (i ∷ is) = (i < count) × AllBelow count is

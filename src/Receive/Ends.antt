-- ===== src/Receive/Ends.antt =====
-- The end of the loop over the commands of a datagram (src/protocol.c).
use enet.Base.{
  ℕ, zero, suc, ◌-◌, ◌<◌, ◌≡◌, refl, inl, inr, Bool, true, false, not, List, [], ◌∷◌, Option, some,
  if◌then◌else◌, length, skip, arith, Bool-cases,
}
use enet.Wire.{command_size}
use enet.Wire.Bytes.{decode}
use enet.State.{Session, Peer}
use enet.Receive.{
  Reception, is_whole, lacks_peer, payload_length, handle_command, acknowledge_command,
  receive_commands, handle_datagram,
}

length-skip : (n : ℕ) (l : List ℕ) → length (skip n l) ≡ length l - n
length-skip zero l = omega arith
length-skip (suc n) [] = omega arith
length-skip (suc n) (x ∷ xs) = omega (arith, length-skip n xs)

abbrev Ends : Option Reception → Type 0
Ends o = (r : Reception) × (o ≡ some r)

either-Ends : (b : Bool) (x y : Option Reception) → Ends x → Ends y → Ends (if b then x else y)
either-Ends true x y p q = p
either-Ends false x y p q = q

shorter :
    (bytes : List ℕ) (n : ℕ)
    → is_whole bytes ≡ true
    → length (skip n (skip (command_size (decode bytes).command) bytes)) < length bytes
unfolding is_whole
shorter bytes n e =
    let size = command_size (decode bytes).command in
    ground (arith, e, length-skip n (skip size bytes), length-skip size bytes)

receive_commands-Ends :
    (flush : Session → Session) (nobody : Peer) (fuel : ℕ) (sent_time : Option ℕ) (bytes : List ℕ)
    (r : Reception)
    → length bytes < fuel
    → Ends (receive_commands flush nobody fuel sent_time bytes r)
unfolding receive_commands
receive_commands-Ends flush nobody zero sent_time bytes r h = absurd (omega (arith, h))
receive_commands-Ends flush nobody (suc fuel) sent_time bytes r h =
    elim (Bool-cases (is_whole bytes)) [
      | inr t ↦ rw (t, receive_commands) (r, refl)
      | inl t ↦
          let c = decode bytes in
          let n = payload_length c.body in
          let left = skip n (skip (command_size c.command) bytes) in
          let less = shorter bytes n t in
          let (handled, r₁) =
            handle_command flush nobody c (skip (command_size c.command) bytes) r in
          let (goes_on, r₂) = acknowledge_command flush nobody c sent_time r₁ in
          either-Ends (not (is_whole bytes)) (some r) _ (r, refl)
            (either-Ends (lacks_peer c r) (some r) _ (r, refl)
              (either-Ends (not handled) (some r₁) _ (r₁, refl)
                (either-Ends goes_on _ (some r₂)
                  (receive_commands-Ends flush nobody fuel sent_time left r₂
                    (omega (arith, h, less)))
                  (r₂, refl))))
    ]

-- The loop of `enet_protocol_handle_incoming_commands` over the commands is over after as many rounds
-- as the datagram has bytes and one more, whatever the bytes are and whatever the handlers do.
pub handle_datagram-Ends :
    (flush : Session → Session) (nobody : Peer) (sent_time : Option ℕ) (bytes : List ℕ)
    (r : Reception)
    → (r' : Reception) × (handle_datagram flush nobody sent_time bytes r ≡ some r')
unfolding handle_datagram
handle_datagram-Ends flush nobody sent_time bytes r =
    receive_commands-Ends flush nobody (suc (length bytes)) sent_time bytes r (omega arith)

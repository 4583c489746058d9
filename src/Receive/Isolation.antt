-- ===== src/Receive/Isolation.antt =====
-- The commands of a datagram change only the peer that the datagram names (src/protocol.c).
use enet.Base.{
  ℕ, zero, suc, ◌≡◌, ◌∙◌, refl, Bool, true, false, not, List, Option, none, some, if◌then◌else◌,
  skip, length, get_or, set, get_or-set_other,
}
use enet.Wire.{Protocol, command_size, flag_acknowledge}
use enet.Wire.Bytes.{decode}
use enet.State.{Session, Peer, Host, Event}
use enet.Receive.{
  Reception, is_whole, lacks_peer, payload_length, handle_command, answer, acknowledge_command,
  receive_commands, handle_datagram,
}

module _ (flush : Session → Session) (nobody : Peer) (i : ℕ) where
  -- The datagram's peer is still this one, and the others are as they were.
  pub record OnlyAt (r r' : Reception) : Type 0 where
    pub same_peer : r'.peer ≡ some i
    pub others : (j : ℕ) → (j ≡ i → ⊥) → get_or r'.peers j nobody ≡ get_or r.peers j nobody

  OnlyAt-refl : (r : Reception) → r.peer ≡ some i → OnlyAt r r
  OnlyAt-refl r e = record { same_peer = e; others = λ j n. refl }

  OnlyAt-trans : (r s t : Reception) → OnlyAt r s → OnlyAt s t → OnlyAt r t
  OnlyAt-trans r s t a b = record {
    same_peer = b.same_peer;
    others = λ j n. b.others j n ∙ a.others j n;
  }

  -- A change at the peer's place, whatever becomes of the host and the event.
  set-OnlyAt :
      (r : Reception) (h : Host) (p : Peer) (event : Option Event)
      → r.peer ≡ some i
      → OnlyAt r (record { host = h; peers = set r.peers i p; peer = some i; event = event })
  set-OnlyAt r h p event e = record {
    same_peer = refl;
    others = λ j n. get_or-set_other r.peers i j p nobody n;
  }

  handle_command-OnlyAt :
      (c : Protocol) (bytes : List ℕ) (r : Reception)
      → r.peer ≡ some i
      → OnlyAt r (handle_command flush nobody c bytes r).1
  unfolding handle_command
  handle_command-OnlyAt c bytes r e = simp (e, handle_command) (set-OnlyAt r _ _ _ e)

  acknowledge_command-OnlyAt :
      (c : Protocol) (sent_time : Option ℕ) (r : Reception)
      → r.peer ≡ some i
      → OnlyAt r (acknowledge_command flush nobody c sent_time r).1
  unfolding acknowledge_command
  acknowledge_command-OnlyAt c sent_time r e =
      simp (e, acknowledge_command) (answered (flag_acknowledge c.command) sent_time)
    where
      s : Session
      s = record { host = r.host; peer = get_or r.peers i nobody }

      answered :
          (b : Bool) (o : Option ℕ)
          → OnlyAt r
              (if b
                then elim o as (λ _. Bool × Reception) [
                  | none ↦ (false, r)
                  | some t ↦ (
                    true,
                    record r {
                      host = (answer c t s).host;
                      peers = set r.peers i (answer c t s).peer;
                    },
                  )
                ]
                else (true, r)).1
      answered false o = OnlyAt-refl r e
      answered true none = OnlyAt-refl r e
      answered true (some t) = record {
        same_peer = e;
        others = λ j n. get_or-set_other r.peers i j (answer c t s).peer nobody n;
      }

  -- What is reached, if something is.
  abbrev pub Leaves : Reception → Option Reception → Type 0
  Leaves r none = Unit {0}
  Leaves r (some r') = OnlyAt r r'

  either-Leaves :
      (r : Reception) (b : Bool) (x y : Option Reception)
      → Leaves r x
      → Leaves r y
      → Leaves r (if b then x else y)
  either-Leaves r true x y p q = p
  either-Leaves r false x y p q = q

  Leaves-trans : (r s : Reception) (o : Option Reception) → OnlyAt r s → Leaves s o → Leaves r o
  Leaves-trans r s none a b = tt
  Leaves-trans r s (some t) a b = OnlyAt-trans r s t a b

  receive_commands-Leaves :
      (fuel : ℕ) (sent_time : Option ℕ) (bytes : List ℕ) (r : Reception)
      → r.peer ≡ some i
      → Leaves r (receive_commands flush nobody fuel sent_time bytes r)
  unfolding receive_commands
  receive_commands-Leaves zero sent_time bytes r e = tt
  receive_commands-Leaves (suc fuel) sent_time bytes r e =
      let c = decode bytes in
      let after = skip (command_size c.command) bytes in
      let r₁ = (handle_command flush nobody c after r).1 in
      let r₂ = (acknowledge_command flush nobody c sent_time r₁).1 in
      let first = handle_command-OnlyAt c after r e in
      let second =
        OnlyAt-trans r r₁ r₂ first (acknowledge_command-OnlyAt c sent_time r₁ first.same_peer) in
      let left = skip (payload_length c.body) after in
      either-Leaves r (not (is_whole bytes)) (some r) _ (OnlyAt-refl r e) (
        either-Leaves r (lacks_peer c r) (some r) _ (OnlyAt-refl r e) (
          either-Leaves r (not (handle_command flush nobody c after r).0) (some r₁) _ first (
            either-Leaves r (acknowledge_command flush nobody c sent_time r₁).0 _ (some r₂)
              (Leaves-trans r r₂ _ second
                (receive_commands-Leaves fuel sent_time left r₂ second.same_peer))
              second)))

  pub handle_datagram-Leaves :
      (sent_time : Option ℕ) (bytes : List ℕ) (r : Reception)
      → r.peer ≡ some i
      → Leaves r (handle_datagram flush nobody sent_time bytes r)
  unfolding handle_datagram
  handle_datagram-Leaves sent_time bytes r e =
      receive_commands-Leaves (suc (length bytes)) sent_time bytes r e

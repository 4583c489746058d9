-- ===== src/Receive/Guard.antt =====
-- Which datagrams change something, and what they may change (src/protocol.c).
use enet.Base.{
  ℕ, ◌<◌, ◌≡◌, ◌≢◌, ◌∙◌, ◌⊎◌, inl, inr, refl, Bool, true, false, not, ◌&&◌, ◌||◌, List, Option,
  none, some, ltb, leb, ◌==◌, if◌then◌else◌, length, get_or, set, take, skip, get_or-set_other,
  arith, lt→ltb, Bool-cases, Option-cases, ==_iff,
}
use enet.Wire.{maximum_peer_id}
use enet.Wire.Bytes.{word16}
use enet.State.{Session, Peer, Address}
use enet.Address.{equal, is_broadcast, equal_iff}
use enet.Receive.{Reception}
use enet.Receive.Ends.{handle_datagram-Ends}
use enet.Receive.Isolation.{Leaves, handle_datagram-Leaves}
use enet.Receive.Header.{
  Header, read_header, header_size, is_deaf, is_refused, find_peer, Received, note_sender,
  Callbacks, is_set, opened, connect_id_of, accept, admit, handle_incoming_commands,
}

-- A datagram that may come from this peer: it is in a state that takes some, it stands at the
-- sender's address or has been given the broadcast address, and if it is known to the other side the
-- datagram has its session number.
pub record MayCome (header : Header) (from : Address) (p : Peer) : Type 0 where
  pub listens : is_deaf p.state ≡ false
  pub address : (from ≡ p.address) ⊎ (is_broadcast p.address ≡ true)
  pub session : p.outgoing_peer_id < maximum_peer_id → header.session ≡ p.incoming_session_id

tests_passed :
    (deaf same broadcast known right : Bool)
    → (deaf || not same && not broadcast || known && not right) ≡ false
    → (deaf ≡ false) × ((same ≡ true) ⊎ (broadcast ≡ true)) × (known ≡ true → right ≡ true)
tests_passed true s b k r h = cc
tests_passed false false false k r h = cc
tests_passed false true b true false h = cc
tests_passed false true b k true h = (refl, inl refl, λ e. refl)
tests_passed false true b false false h = (refl, inl refl, λ e. cc)
tests_passed false false true true false h = cc
tests_passed false false true k true h = (refl, inr refl, λ e. refl)
tests_passed false false true false false h = (refl, inr refl, λ e. cc)

is_refused-MayCome :
    (header : Header) (from : Address) (p : Peer)
    → is_refused header from p ≡ false
    → MayCome header from p
unfolding is_refused
is_refused-MayCome header from p h =
    let (a, b, d) =
      tests_passed (is_deaf p.state) (equal from p.address) (is_broadcast p.address)
        (ltb p.outgoing_peer_id maximum_peer_id) (header.session == p.incoming_session_id) h in
    record {
      listens = a;
      address = at_address b;
      session = λ l. (==_iff header.session p.incoming_session_id).0 (d (lt→ltb _ _ l));
    }
  where
    at_address :
        (equal from p.address ≡ true) ⊎ (is_broadcast p.address ≡ true)
        → (from ≡ p.address) ⊎ (is_broadcast p.address ≡ true)
    at_address (inl e) = inl ((equal_iff from p.address).0.0 e)
    at_address (inr e) = inr e

-- How the search for the peer ends.
data Found (header : Header) (from : Address) (peers : List Peer) (nobody : Peer)
    : Option (Option ℕ) → Type 0 where
  unfound : Found header from peers nobody none
  unknown : header.peer_id ≡ maximum_peer_id → Found header from peers nobody (some none)
  known :
      {i : ℕ}
      → i ≡ header.peer_id
      → header.peer_id < length peers
      → MayCome header from (get_or peers header.peer_id nobody)
      → Found header from peers nobody (some (some i))

either-Found :
    (header : Header) (from : Address) (peers : List Peer) (nobody : Peer) (b : Bool)
    (x y : Option (Option ℕ))
    → (b ≡ true → Found header from peers nobody x)
    → (b ≡ false → Found header from peers nobody y)
    → Found header from peers nobody (if b then x else y)
either-Found header from peers nobody true x y p q = p refl
either-Found header from peers nobody false x y p q = q refl

find_peer-Found :
    (header : Header) (from : Address) (peers : List Peer) (nobody : Peer)
    → Found header from peers nobody (find_peer header from peers nobody)
unfolding find_peer
find_peer-Found header from peers nobody =
    let p = get_or peers header.peer_id nobody in
    let split = either-Found header from peers nobody in
    split (header.peer_id == maximum_peer_id) _ _
      (λ e. Found.unknown ((==_iff header.peer_id maximum_peer_id).0 e))
      (λ _.
        split (leb (length peers) header.peer_id) _ _ (λ _. Found.unfound)
          (λ l.
            split (is_refused header from p) _ _ (λ _. Found.unfound)
              (λ h. Found.known refl (ground (arith, l)) (is_refused-MayCome header from p h))))

module _ (c : Callbacks) (flush : Session → Session) (nobody : Peer) where
  -- A datagram that comes from the peer it names, and changes no other.
  pub record Entitled (header : Header) (r r' : Reception) : Type 0 where
    pub is_here : header.peer_id < length r.peers
    pub may_come : MayCome header r.host.received_address (get_or r.peers header.peer_id nobody)
    pub others : (j : ℕ) → j ≢ header.peer_id → get_or r'.peers j nobody ≡ get_or r.peers j nobody

  -- What a datagram may do.
  abbrev pub Outcome : Header → Reception → Reception → Type 0
  Outcome header r r' = (r' ≡ r) ⊎ ((header.peer_id ≡ maximum_peer_id) ⊎ Entitled header r r')

  accept-others :
      (header : Header) (n i : ℕ) (g : Received) (r r' : Reception)
      → accept c flush nobody header n (some i) g r ≡ some r'
      → (j : ℕ) → j ≢ i
      → get_or r'.peers j nobody ≡ get_or r.peers j nobody
  unfolding accept
  accept-others header n i g r r' e j ne =
      let noted = note_sender c.view r.host.received_address g.size (get_or r.peers i nobody) in
      let s = record r { peers = set r.peers i noted; peer = some i } in
      let time : Option ℕ = if header.has_sent_time then some (word16 2 g.bytes) else none in
      let only : Leaves flush nobody i s (some r') =
        rw e at
          (handle_datagram-Leaves flush nobody i time (skip n (take g.size g.bytes)) s refl) in
      only.others j ne ∙ get_or-set_other r.peers i j noted nobody ne

  accept-Ends :
      (header : Header) (n : ℕ) (peer : Option ℕ) (g : Received) (r : Reception)
      → (r' : Reception) × (accept c flush nobody header n peer g r ≡ some r')
  unfolding accept
  accept-Ends header n peer g r = handle_datagram-Ends flush nobody _ _ _

  -- A datagram is dropped, or it comes to the loop.
  admit-cases :
      (header : Header) (peer : Option ℕ) (g : Received) (r : Reception)
      → (admit c flush nobody header peer g r ≡ some r)
        ⊎ ((n : ℕ) × (g' : Received) × (admit c flush nobody header peer g r
              ≡ accept c flush nobody header n peer g' r))
  unfolding admit
  admit-cases header peer g r =
      let n = header_size header (is_set c.checksum) (is_set c.decrypt) in
      elim (Option-cases (opened c header n peer (connect_id_of c flush nobody peer r.peers) g)) [
        | inl e ↦ inl (rw (e, admit) refl)
        | inr (g', e) ↦ inr (n, g', rw (e, admit) refl)
      ]

  abbrev Reaches : Header → Reception → Option Reception → Type 0
  Reaches header r o = (r' : Reception) × (o ≡ some r') × Outcome header r r'

  admit-Reaches :
      (header : Header) (g : Received) (r : Reception) (peer : Option ℕ)
      → ((n : ℕ) (g' : Received) (r' : Reception)
          → accept c flush nobody header n peer g' r ≡ some r'
          → (header.peer_id ≡ maximum_peer_id) ⊎ Entitled header r r')
      → Reaches header r (admit c flush nobody header peer g r)
  admit-Reaches header g r peer let_through = elim (admit-cases header peer g r) [
    | inl e ↦ (r, e, inl refl)
    | inr (n, g', e) ↦
        let (r', f) = accept-Ends header n peer g' r in (r', e ∙ f, inr (let_through n g' r' f))
  ]

  Found-Reaches :
      (header : Header) (g : Received) (r : Reception) (o : Option (Option ℕ))
      → Found header r.host.received_address r.peers nobody o
      → Reaches header r (elim o as (λ _. Option Reception) [
        | none ↦ some r
        | some peer ↦ admit c flush nobody header peer g r
      ])
  Found-Reaches header g r _ unfound = (r, refl, inl refl)
  Found-Reaches header g r _ (unknown e) = admit-Reaches header g r none (λ n g' r' f. inl e)
  Found-Reaches header g r _ (known {i} e here may) =
      admit-Reaches header g r (some i) (λ n g' r' f. inr (record {
        is_here = here;
        may_come = may;
        others = λ j ne. accept-others header n i g' r r' f j (λ q. ne (q ∙ e));
      }))

  -- `enet_protocol_handle_incoming_commands` comes to an end. Whatever the datagram's bytes are and
  -- whatever the callbacks make of them, it changes nothing, or it names no peer, or it names one in
  -- the array, in a state that takes datagrams, that stands at the sender's address or was given the
  -- broadcast address, and whose session number it has if the other side knows the peer; then all
  -- other peers stay as they were.
  pub handle_incoming_commands-Outcome :
      (g : Received) (r : Reception)
      → (r' : Reception) × (handle_incoming_commands c flush nobody g r ≡ some r')
        × Outcome (read_header g.bytes) r r'
  unfolding handle_incoming_commands
  handle_incoming_commands-Outcome g r =
      let header = read_header g.bytes in
      elim (Bool-cases (ltb g.size 2)) [
        | inl t ↦ (r, rw t refl, inl refl)
        | inr t ↦
            rw (t, handle_incoming_commands)
              (Found-Reaches header g r _
                (find_peer-Found header r.host.received_address r.peers nobody))
      ]

-- ===== src/Handlers/Assembly/Complete.antt =====
-- The fragments that have arrived decide about a packet (src/protocol.c, the last part of
-- `enet_protocol_handle_send_fragment` and `…_unreliable_fragment`): the invariant of the bit set, the
-- count and the bytes, and what follows when none is missing.
use enet.Base.{
  ℕ, ◌+◌, ◌^◌, ◌<◌, ◌≤◌, ◌≡◌, inl, inr, refl, ap, sym, ◌∙◌, Bool, true, false, ◌||◌, List, [], ◌∷◌,
  some, ltb, ◌==◌, u32, skip, length, get_or, set, replicate, arith, Bool-cases, ==_iff, length-set,
  get_or-set_self, get_or-set_other, length-replicate, get_or-replicate, take-take,
}
use enet.State.{IncomingCommand, Packet}
use enet.Wire.{SendFragment}
use enet.Handlers.Assembly.Bits.{
  trues, trues-le, overlay-slice, length-overlay, same_bytes, trues-set, trues-all, all-trues,
  trues-replicate,
}
use enet.Handlers.Fragments.{has_fragment, mark_fragment, fill_fragment, overlay}
use enet.Handlers.Assembly.{slice, IsCutting, arrive_all, Awaits, member, AllBelow}

module _ (bytes : List ℕ) (count : ℕ) (frag : ℕ → SendFragment)
    (cutting : IsCutting bytes count frag) (short : length bytes < 2 ^ 32)
    (few : count < 2 ^ 32) where
  -- The packet between two arrivals: the bits are counted, and what a set bit stands for is there.
  record Holds (flags : List Bool) (old : List ℕ) (d : IncomingCommand) (k : Packet) : Type 0 where
    pub fragments : d.fragments ≡ some flags
    pub length-flags : length flags ≡ count
    pub fragments_remaining : d.fragments_remaining + trues flags ≡ count
    pub data_length : k.data_length ≡ length bytes
    pub kept : k.bytes ≡ some old
    pub length-old : length old ≡ length bytes
    pub agree :
        (i j : ℕ)
        → i < count
        → get_or flags i false ≡ true
        → (frag i).fragment_offset ≤ j
        → j < (frag i).fragment_offset + (frag i).data_length
        → get_or old j 0 ≡ get_or bytes j 0

  Holds-start :
      (d : IncomingCommand) (k : Packet) (w : Awaits (length bytes) count d k)
      → Holds (replicate count false) w.old d k
  Holds-start d k w = record {
    fragments = w.fragments;
    length-flags = length-replicate count false;
    fragments_remaining = omega (arith, w.fragments_remaining, trues-replicate count);
    data_length = w.data_length;
    kept = w.bytes;
    length-old = w.length-old;
    agree = λ i j h e lo hi. absurd (cc (e, get_or-replicate count i false));
  }

  Holds-arrive :
      (flags : List Bool) (old : List ℕ) (d : IncomingCommand) (k : Packet) (i : ℕ)
      → Holds flags old d k
      → i < count
      → get_or flags i false ≡ false
      → let f = frag i in
        let carried = slice f.fragment_offset f.data_length bytes in
        Holds
          (set flags i true)
          (overlay old f.fragment_offset carried)
          (mark_fragment (frag i).fragment_number d)
          (fill_fragment f carried k)
  unfolding fill_fragment
  Holds-arrive flags old d k i v h e = record {
    fragments = rw v.fragments (rw (cutting.number i h) refl);
    length-flags = length-set flags i true ∙ v.length-flags;
    fragments_remaining = omega (
      arith,
      v.fragments_remaining,
      v.length-flags,
      length-set flags i true,
      trues-set flags i (omega (arith, h, v.length-flags)) e,
      trues-le (set flags i true),
    );
    data_length = v.data_length;
    kept =
        let size = (frag i).data_length in
        let o = (frag i).fragment_offset in
        let fits : ltb k.data_length (u32 (o + size)) ≡ false =
          ground (arith, v.data_length, cutting.inside i h) in
        rw v.kept (rw fits (ap (λ l. some (overlay old o l)) (take-take size (skip o bytes))));
    length-old = length-overlay old _ _ ∙ v.length-old;
    agree = λ q j below t lo hi.
        let o = (frag i).fragment_offset in
        let size = (frag i).data_length in
        let written = overlay-slice old bytes o size j v.length-old (cutting.inside i h) in
        elim (Bool-cases (q == i)) [
          | inl same ↦
              let equal : q ≡ i = (==_iff q i).0 same in
              let first : o ≤ j = rw equal at lo in
              let last : j < o + size = rw equal at hi in ground (arith, written, first, last)
          | inr other ↦
              let differ : q ≡ i → ⊥ = λ x. ground arith in
              let before = get_or-set_other flags i q true false differ in
              ground (arith, written, v.agree q j below (sym before ∙ t) lo hi)
        ];
  }

  Holds-complete :
      (flags : List Bool) (old : List ℕ) (d : IncomingCommand) (k : Packet)
      → Holds flags old d k
      → d.fragments_remaining ≡ 0
      → k.bytes ≡ some bytes
  Holds-complete flags old d k v e =
      let flagged : (i : ℕ) → i < count → get_or flags i false ≡ true = λ i h.
        trues-all flags i (omega (arith, v.fragments_remaining, v.length-flags, e))
          (omega (arith, h, v.length-flags)) in
      v.kept
      ∙ ap some (
          same_bytes old bytes v.length-old (λ j h.
            let (i, below, lo, hi) = cutting.cover j h in
            v.agree i j below (flagged i below) lo hi))

  -- After any arrivals: a bit is set if it was or its fragment is among them.
  record Reaches (is : List ℕ) (flags : List Bool) (d : IncomingCommand) (k : Packet) : Type 0 where
    pub reached : List Bool
    pub old : List ℕ
    pub holds : Holds reached old d k
    pub arrived :
        (q : ℕ) → q < count → get_or reached q false ≡ (member q is || get_or flags q false)

  Reaches-all :
      (is : List ℕ) (flags : List Bool) (old : List ℕ) (d : IncomingCommand) (k : Packet)
      → Holds flags old d k
      → AllBelow count is
      → let (d', k') = arrive_all bytes frag is d k in Reaches is flags d' k'
  unfolding arrive_all
  Reaches-all [] flags old d k v b = record {
    reached = flags;
    old = old;
    holds = v;
    arrived = λ q h. refl;
  }
  Reaches-all (i ∷ is) flags old d k v (h, b) =
      let f = frag i in
      let carried = slice f.fragment_offset f.data_length bytes in
      elim (Bool-cases (get_or flags i false)) [
        | inl t ↦
            let bit : has_fragment d f.fragment_number ≡ true =
              rw v.fragments (rw (cutting.number i h) t) in
            let next = Reaches-all is flags old d k v b in
            rw (bit, arrive_all)
              (record {
                reached = next.reached;
                old = next.old;
                holds = next.holds;
                arrived = λ q below. elim (Bool-cases (i == q)) [
                  | inl same ↦
                      let there : get_or flags q false ≡ true = rw ((==_iff i q).0 same) at t in
                      ground (arith, next.arrived q below, there, same)
                  | inr other ↦ ground (arith, next.arrived q below, other)
                ];
              })
        | inr t ↦
            let bit : has_fragment d f.fragment_number ≡ false =
              rw v.fragments (rw (cutting.number i h) t) in
            let next =
              Reaches-all is (set flags i true) (overlay old f.fragment_offset carried)
                (mark_fragment (frag i).fragment_number d) (fill_fragment f carried k)
                (Holds-arrive flags old d k i v h t) b in
            rw (bit, arrive_all)
              (record {
                reached = next.reached;
                old = next.old;
                holds = next.holds;
                arrived = λ q below. elim (Bool-cases (i == q)) [
                  | inl same ↦
                      let fits : i < length flags = omega (arith, h, v.length-flags) in
                      let set_bit : get_or (set flags i true) i false ≡ true =
                        get_or-set_self flags i true false fits in
                      let there : get_or (set flags i true) q false ≡ true =
                        rw (sym ((==_iff i q).0 same)) set_bit in
                      ground (arith, next.arrived q below, there, same)
                  | inr other ↦
                      let differ : q ≡ i → ⊥ = λ x. ground arith in
                      let before = get_or-set_other flags i q true false differ in
                      ground (arith, next.arrived q below, before, other)
                ];
              })
      ]

-- The fragments that have arrived decide: the count of the missing ones is 0 only if every fragment
-- is among the arrivals, and then the packet has the sender's bytes. Of a packet and of fragments
-- below 2 ^ 32, whatever the packet held before, and in whatever order the fragments came.
pub arrive_all_sound :
    (bytes : List ℕ) (count : ℕ) (frag : ℕ → SendFragment) (is : List ℕ) (d : IncomingCommand)
    (k : Packet) (i : ℕ)
    → IsCutting bytes count frag
    → length bytes < 2 ^ 32
    → count < 2 ^ 32
    → Awaits (length bytes) count d k
    → AllBelow count is
    → i < count
    → (arrive_all bytes frag is d k).0.fragments_remaining ≡ 0
    → (member i is ≡ true) × ((arrive_all bytes frag is d k).1.bytes ≡ some bytes)
arrive_all_sound bytes count frag is d k i cutting short few w b h e =
    let r =
      Reaches-all bytes count frag cutting short few is (replicate count false) w.old d k
        (Holds-start bytes count frag cutting short few d k w) b in
    let v = r.holds in
    let bit =
      trues-all r.reached i (omega (arith, v.fragments_remaining, v.length-flags, e))
        (omega (arith, h, v.length-flags)) in
    let (d', k') = arrive_all bytes frag is d k in
    (
      ground (arith, bit, r.arrived i h, get_or-replicate count i false),
      Holds-complete bytes count frag cutting short few r.reached r.old d' k' v e,
    )

-- Once every fragment of a packet has arrived, in any order and any of them any number of times,
-- none is missing and the packet has the sender's bytes. Of a packet and of fragments below 2 ^ 32,
-- whatever the packet held before.
pub arrive_all_complete :
    (bytes : List ℕ) (count : ℕ) (frag : ℕ → SendFragment) (is : List ℕ) (d : IncomingCommand)
    (k : Packet)
    → IsCutting bytes count frag
    → length bytes < 2 ^ 32
    → count < 2 ^ 32
    → Awaits (length bytes) count d k
    → AllBelow count is
    → ((i : ℕ) → i < count → member i is ≡ true)
    → ((arrive_all bytes frag is d k).0.fragments_remaining ≡ 0)
      × ((arrive_all bytes frag is d k).1.bytes ≡ some bytes)
arrive_all_complete bytes count frag is d k cutting short few w b all =
    let r =
      Reaches-all bytes count frag cutting short few is (replicate count false) w.old d k
        (Holds-start bytes count frag cutting short few d k w) b in
    let v = r.holds in
    let set_bits = all-trues r.reached (λ i h.
      let below : i < count = omega (arith, h, v.length-flags) in
      ground (arith, r.arrived i below, all i below)) in
    let none_left : (arrive_all bytes frag is d k).0.fragments_remaining ≡ 0 =
      omega (arith, v.fragments_remaining, v.length-flags, set_bits) in
    let (d', k') = arrive_all bytes frag is d k in
    (none_left, Holds-complete bytes count frag cutting short few r.reached r.old d' k' v none_left)

-- ===== src/Conn/Write/Targets.antt =====
-- Where the client sends: the ports the packet can meet if it arrives a little late.
use mathlib.Core.Path.{subst}
use native.Mathlib.Nat.{div-eq_of_lt-le, div-add-mod', mod-lt}
use quic_hop.Base.{
  ℕ, ◌+◌, ◌-◌, ◌*◌, ◌/◌, ◌%◌, ◌≤◌, ◌<◌, ◌≡◌, refl, sym, ap, ◌⊎◌, inl, inr, List, [], ◌∷◌, arith,
  true, ltb, Bool-cases,
}
use quic_hop.Base.Int.{ℤ}
use quic_hop.Config.{Config}
use quic_hop.Clock.{
  UdpAddr, same_addr, millisecond, unix_milli, slot_of, address_of_slot, get_address_by_time,
}
use quic_hop.Conn.Write.{add_duration, listed, second_target, client_write}

abbrev pub OneOf : UdpAddr → List UdpAddr → Type 0
OneOf a [] = ⊥
OneOf a (t ∷ ts) = (a ≡ t) ⊎ OneOf a ts

same_addr_eq : (a b : UdpAddr) → same_addr a b ≡ true → a ≡ b
unfolding same_addr
same_addr_eq a b h = ground arith

-- A moment less than a slot later lies in the same slot or, past the boundary, in the next one.
slot_or_next :
    (s x y : ℕ)
    → 0 < s
    → x ≤ y
    → y < x + s
    → (y / s ≡ x / s) ⊎ ((y / s ≡ x / s + 1) × (s - x % s ≤ y - x))
slot_or_next s x y pos lo hi = elim (Bool-cases (ltb y ((x / s + 1) * s))) [
  | inl before ↦ inl (div-eq_of_lt-le s (omega (arith, div-add-mod' x s)) (ground arith))
  | inr after ↦
      let past : (x / s + 1) * s ≤ y = ground arith in
      inr (
        div-eq_of_lt-le s past (omega (arith, div-add-mod' x s, mod-lt x {m = s} pos)),
        omega (arith, div-add-mod' x s, mod-lt x {m = s} pos),
      )
]

-- One slot later is the next slot.
slot_of-add : (s t : ℕ) → 0 < s → slot_of s (t + s * millisecond) ≡ slot_of s t + 1
unfolding slot_of
slot_of-add s t pos =
    let shift : unix_milli (t + s * millisecond) ≡ unix_milli t + s = omega arith in
    rw shift (
      div-eq_of_lt-le s (omega (arith, div-add-mod' (unix_milli t) s))
        (omega (arith, div-add-mod' (unix_milli t) s, mod-lt (unix_milli t) {m = s} pos)))

-- Near the end of a slot the second target is the next slot's address, unless it is the first again.
second_target_next :
    (config : Config) (arrival : ℕ)
    → 0 < config.slot_duration_ms
    → config.slot_duration_ms - unix_milli arrival % config.slot_duration_ms
      < config.client_double_send_edge_threshold_ms
    → OneOf (address_of_slot (slot_of config.slot_duration_ms arrival + 1)) (
        get_address_by_time config.slot_duration_ms arrival ∷ listed (second_target config arrival))
unfolding second_target get_address_by_time
second_target_next config arrival pos near =
    let s = config.slot_duration_ms in
    let edge : ltb (s - unix_milli arrival % s) config.client_double_send_edge_threshold_ms ≡ true =
      ground arith in
    rw (edge, slot_of-add s arrival pos)
      (elim (Bool-cases (
        same_addr (address_of_slot (slot_of s arrival + 1))
          (address_of_slot (slot_of s arrival)))) [
            | inl same ↦ inl (same_addr_eq _ _ same)
            | inr different ↦ rw different (inr (inl refl))
          ])

-- A packet that meets the server at or after its predicted arrival, and whose moment, in whole
-- milliseconds, is less than the threshold past that of the prediction, also in whole milliseconds,
-- finds the address of that moment among those it was sent to, if the first send succeeds and
-- the threshold is at most a slot.
pub client_write_covers :
    (config : Config) (latency : ℤ) (now t : ℕ)
    → 0 < config.slot_duration_ms
    → config.client_double_send_edge_threshold_ms ≤ config.slot_duration_ms
    → add_duration now latency ≤ t
    → unix_milli t
      < unix_milli (add_duration now latency) + config.client_double_send_edge_threshold_ms
    → OneOf (get_address_by_time config.slot_duration_ms t) (client_write config latency now true)
unfolding client_write
client_write_covers config latency now t pos small lo hi =
    elim (slot_or_next config.slot_duration_ms (unix_milli arrival) (unix_milli t) pos (omega arith)
      (omega arith)) [
        | inl same ↦ inl (unfold get_address_by_time slot_of in ap address_of_slot same)
        | inr (next, late) ↦
            let at : get_address_by_time config.slot_duration_ms t
                ≡ address_of_slot (slot_of config.slot_duration_ms arrival + 1) =
              unfold get_address_by_time slot_of in ap address_of_slot next in
            subst
              (λ a. OneOf a (
                get_address_by_time config.slot_duration_ms arrival
                ∷ listed (second_target config arrival)))
              (sym at) (second_target_next config arrival pos (omega arith))
      ]
  where
    arrival : ℕ
    arrival = add_duration now latency

-- ===== src/Conn/Write.antt =====
-- `WriteTo` and `clientWrite`: count the packets of a CID, hide the CID from the eleventh on, and
-- send to the address of the arrival's slot, near a slot's end also to the next one's.
pub mod Hide
pub mod Targets
use quic_hop.Base.{
  ℕ, suc, ◌+◌, ◌-◌, ◌*◌, ◌%◌, List, [], ◌∷◌, ◌++◌, Bool, true, false, ◌&&◌, not, Option, none, some,
  ltb, length, take, drop, u16, if◌then◌else◌, ◌>>=◌,
}
use quic_hop.Base.Int.{ℤ, pos_part, neg_part}
use quic_hop.Base.Assoc.{lookup, insert, bytes_keys}
use quic_hop.Config.{Config, fixed_cid_len}
use quic_hop.Algo.Rng.{MathRand}
use quic_hop.Algo.Codec.{copy, obfuscate}
use quic_hop.Clock.{UdpAddr, same_addr, millisecond, unix_milli, get_address_by_time}
use quic_hop.Conn.Packet.{cid_offset, is_long_header, wire_cid}

-- `val, _ := Load(key)`; a missing count is 0.
unfoldable pub count_of : List (List ℕ × ℕ) → List ℕ → ℕ
count_of counts key = elim (lookup key counts) [ some count ↦ count | none ↦ 0 ]

-- The first ten packets of a CID are not hidden, nor any with the option off.
unfoldable pub hides : Config → ℕ → Bool
hides config count = config.cid_obfuscation_enabled && ltb 10 count

module _ (m : MathRand) where
  -- The sending half: the counts of sent short headers by CID, and the generator of the seeds.
  pub record Sender : Type 0 where
    pub tx_counts : List (List ℕ × ℕ)
    pub obf_rng : m.Rand

  -- A packet is one with a short header and room for a CID.
  unfoldable pub carries_cid : List ℕ → Bool
  carries_cid p =
      ltb 0 (length p)
      && not (is_long_header p)
      && not (ltb (length p) (cid_offset + fixed_cid_len))

  -- `Obfuscate(p[cidOffset:cidOffset+FixedCIDLen], seed)` in place.
  unfoldable pub hide_cid : List ℕ → ℕ → Option (List ℕ)
  hide_cid p seed = obfuscate m (wire_cid p) seed >>= λ hidden.
      some (take cid_offset p ++ hidden ++ drop (cid_offset + fixed_cid_len) p)

  -- A packet that is counted: hidden under the next seed, or left as it is.
  unfoldable pub prepare_counted : Bool → Sender → List ℕ → Option (List ℕ × Sender)
  unfolding hide_cid
  prepare_counted true s p =
      let draw = m.uint32 s.obf_rng in
      hide_cid p (u16 draw.0) >>= λ hidden. some (hidden, record s { obf_rng = draw.1 })
  prepare_counted false s p = some (p, s)

  -- The first part of `WriteTo`: the bytes to send and the sender after counting.
  unfoldable pub prepare : Config → Sender → List ℕ → Option (List ℕ × Sender)
  unfolding carries_cid prepare_counted
  prepare config s p =
      if carries_cid p
      then (let count = count_of s.tx_counts (wire_cid p) + 1 in
          prepare_counted (hides config count)
            (record s { tx_counts = insert (wire_cid p) count s.tx_counts }) p)
      else some (p, s)

-- `now.Add(d)`, for moments that stay behind the epoch.
abbrev pub add_duration : ℕ → ℤ → ℕ
add_duration now d = now + pos_part d - neg_part d

-- The address of the next slot, if the arrival is near the end of its own. Times are in nanoseconds.
unfoldable pub second_target : Config → ℕ → Option UdpAddr
second_target config arrival =
    let slot_ms = config.slot_duration_ms in
    let ms = unix_milli arrival % slot_ms in
    if ltb (slot_ms - ms) config.client_double_send_edge_threshold_ms
    then (let target2 = get_address_by_time slot_ms (arrival + slot_ms * millisecond) in
        if not (same_addr target2 (get_address_by_time slot_ms arrival))
        then some target2
        else none)
    else none

abbrev pub listed : Option UdpAddr → List UdpAddr
listed (some target) = target ∷ []
listed none = []

-- The addresses that `clientWrite` sends the packet to at `now`, the second one only if the first
-- send returned no error.
unfoldable pub client_write : Config → ℤ → ℕ → Bool → List UdpAddr
client_write config latency now first_ok =
    let arrival = add_duration now latency in
    get_address_by_time config.slot_duration_ms arrival
    ∷ (if first_ok then listed (second_target config arrival) else [])

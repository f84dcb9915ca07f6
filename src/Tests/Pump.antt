-- ===== src/Tests/Pump.antt =====
-- Two pumps: the first reads first, and the second queues its packet before the first one does.
use quic_hop.Base.{ℕ, ◌≤◌, refl, [], ◌∷◌, ◌++◌, false, length}
use quic_hop.Conn.Pump.{
  Reading, datagram, send, queue_capacity, may_choose, pump, packet_of, PumpPhase, reading, in_hand,
  set_phase, Tagged, Reached, start, read, chose, took,
}
use quic_hop.Conn.Pump.InOrder.{Subsequence, of_pump, pump_keeps_order}

abbrev a_datagram : ℕ → Reading
a_datagram n = datagram (n ∷ []) (49 ∷ [])

abbrev packet : ℕ → ℕ → Tagged
packet i n = (i, packet_of (a_datagram n))

abbrev both_read : ℕ → PumpPhase
both_read =
    set_phase 2 (in_hand (a_datagram 8)) (set_phase 1 (in_hand (a_datagram 7)) (λ i. reading))

abbrev both_sent : ℕ → PumpPhase
both_sent = set_phase 1 reading (set_phase 2 reading both_read)

crossed : Reached (packet 1 7 ∷ packet 2 8 ∷ []) both_sent (packet 2 8 ∷ []) (packet 1 7 ∷ [])
unfolding may_choose pump set_phase
crossed = took _ _ [] (packet 1 7 ∷ []) (packet 2 8) (
    chose _ _ [] (packet 2 8 ∷ []) 1 (a_datagram 7) false send refl refl (
      chose _ _ [] [] 2 (a_datagram 8) false send refl refl (
        read (packet 1 7 ∷ []) _ [] [] 2 (a_datagram 8) refl
          (read [] (λ i. reading) [] [] 1 (a_datagram 7) refl start))))

pump_keeps_order_example :
    (length (packet 1 7 ∷ []) ≤ queue_capacity)
    × ((j : ℕ)
        → Subsequence
            (of_pump j ((packet 2 8 ∷ []) ++ packet 1 7 ∷ []))
            (of_pump j (packet 1 7 ∷ packet 2 8 ∷ [])))
pump_keeps_order_example =
    pump_keeps_order (packet 1 7 ∷ packet 2 8 ∷ []) both_sent (packet 2 8 ∷ []) (packet 1 7 ∷ [])
      crossed

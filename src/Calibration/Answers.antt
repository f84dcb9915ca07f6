-- ===== src/Calibration/Answers.antt =====
-- The calibration server answers each datagram by itself.
use quic_hop.Base.{
  ℕ, zero, suc, ◌≤◌, ◌≡◌, refl, ap, List, [], ◌∷◌, arith, true, false, leb, length, take, drop,
  replicate, length-take, length-drop, length-append, length-replicate, Bool-cases, inl, inr,
}
use Prim.Native.Nat.{min}
use quic_hop.Algo.Codec.{copy}
use quic_hop.Calibration.{server_reply}
use quic_hop.Calibration.Listening.{
  Arriving, read_failed, datagram, reply_to, serve_datagrams, listening, start_calibration_server,
}
use quic_hop.Conn.Packet.{Addr}

-- Each datagram with the reply that depends on nothing but its bytes and its moment.
abbrev pub answers : List Arriving → List (Addr × List ℕ)
answers [] = []
answers (read_failed ∷ es) = answers es
answers (datagram content from now ∷ es) = (from, server_reply now content) ∷ answers es

length-copy : (dst src : List ℕ) → length (copy dst src) ≡ length dst
length-copy dst src = omega (
  arith,
  length-append (take (length dst) src) (drop (length src) dst),
  length-take (length dst) src,
  length-drop (length src) dst,
)

take-copy :
    (n : ℕ) (dst src : List ℕ)
    → n ≤ length dst
    → n ≤ length src
    → take n (copy dst src) ≡ take n src
take-copy zero dst src room long = refl
take-copy (suc n) [] src room long = absurd (omega arith)
take-copy (suc n) (d ∷ dst) [] room long = absurd (omega arith)
take-copy (suc n) (d ∷ dst) (s ∷ src) room long =
    ap (λ (x : List ℕ). s ∷ x) (take-copy n dst src (omega arith) (omega arith))

reply_to-eq-server_reply :
    (buf content : List ℕ) (now : ℕ)
    → 8 ≤ length buf
    → reply_to (min (length buf) (length content)) (copy buf content) now ≡ server_reply now content
unfolding reply_to server_reply
reply_to-eq-server_reply buf content now room = elim (Bool-cases (leb 8 (length content))) [
  | inl long ↦
      let enough : leb 8 (min (length buf) (length content)) ≡ true = ground (arith, long) in
      rw (long, enough, take-copy 8 buf content room (ground (arith, long))) refl
  | inr short ↦
      let few : leb 8 (min (length buf) (length content)) ≡ false = ground (arith, short) in
      rw (short, few) refl
]

serve_datagrams-eq-answers :
    (buf : List ℕ) (es : List Arriving) → 8 ≤ length buf → serve_datagrams buf es ≡ answers es
unfolding serve_datagrams
serve_datagrams-eq-answers buf [] room = refl
serve_datagrams-eq-answers buf (read_failed ∷ es) room = serve_datagrams-eq-answers buf es room
serve_datagrams-eq-answers buf (datagram content from now ∷ es) room =
    let later =
      serve_datagrams-eq-answers (copy buf content) es (rw (length-copy buf content) room) in
    rw (reply_to-eq-server_reply buf content now room, later) refl

-- The server that listens answers every datagram once, to its sender, in the order of their
-- arrival, whatever errors come in between; each answer depends on that datagram and its moment
-- only, and not on the bytes that earlier ones left in the buffer.
pub calibration_answers :
    (es : List Arriving) → start_calibration_server (listening es) ≡ answers es
unfolding start_calibration_server
calibration_answers es =
    serve_datagrams-eq-answers (replicate 1024 0) es
      (omega (arith, length-replicate {A = ℕ} 1024 0))

-- ===== src/Conn/Packet.antt =====
-- What the parts of a connection share: packets and the layout of a short header.
use quic_hop.Base.{ℕ, List, Bool, ◌&&◌, Option, bit_and, ltb, length, get_or, take, drop}
use quic_hop.Config.{codes, fixed_cid_len}

-- An address as text, what `addr.String()` returns.
abbrev pub Addr : Type 0
Addr = List ℕ

-- `packet`: `err` is the text of an error.
pub record Packet : Type 0 where
  pub payload : List ℕ
  pub addr : Option Addr
  pub err : Option (List ℕ)

abbrev pub fake_addr : Addr
fake_addr = codes "192.0.2.1:54321"

abbrev pub cid_offset : ℕ
cid_offset = 1

-- `len(data) > 0 && data[0]&0x80 > 0`
unfoldable pub is_long_header : List ℕ → Bool
is_long_header p = ltb 0 (length p) && ltb 0 (bit_and (get_or p 0 0) 0x80)

-- `data[cidOffset : cidOffset+FixedCIDLen]`
unfoldable pub wire_cid : List ℕ → List ℕ
wire_cid p = take fixed_cid_len (drop cid_offset p)

-- ===== src/Conn/Read/Deliver.antt =====
-- What `copy` leaves in the caller's buffer when the packet fits.
use mathlib.Core.List.{append_assoc}
use quic_hop.Base.{
  ℕ, ◌≤◌, ◌≡◌, refl, sym, ap, ap₂, ◌∙◌, List, ◌∷◌, ◌++◌, Option, none, some, false, arith, length,
  take, drop, length-append, take-append, drop-append, take_all, ltb,
}
use Prim.Native.Nat.{min}
use quic_hop.Algo.Codec.{copy}
use quic_hop.Conn.Packet.{Addr}
use quic_hop.Conn.Read.{Delivery, deliver, deliver_restored}

copy_fits :
    (p content : List ℕ)
    → length content ≤ length p
    → copy p content ≡ content ++ drop (length content) p
copy_fits p content h = rw (take_all content (length p) h)

-- The packet is handed over whole and unchanged.
pub record Delivers (p content : List ℕ) (addr : Option Addr) (d : Delivery) : Type 0 where
  pub counted : d.n ≡ length content
  pub whole : take d.n d.buffer ≡ content
  pub beyond : drop d.n d.buffer ≡ drop (length content) p
  pub source : d.addr ≡ addr
  pub no_error : d.err ≡ none

Delivers-front :
    (p content : List ℕ) (addr : Option Addr)
    → length content ≤ length p
    → Delivers p content addr (record {
      n = min (length p) (length content);
      buffer = content ++ drop (length content) p;
      addr = addr;
      err = none;
    })
Delivers-front p content addr h = record {
  counted = omega arith;
  whole =
      take-append content (drop (length content) p) (min (length p) (length content)) (omega arith);
  beyond =
      drop-append content (drop (length content) p) (min (length p) (length content)) (omega arith);
  source = refl;
  no_error = refl;
}

pub deliver-Delivers :
    (p content : List ℕ) (addr : Option Addr)
    → length content ≤ length p
    → Delivers p content addr (deliver p content addr)
unfolding deliver
deliver-Delivers p content addr h =
    rw (take_all content (length p) h) (Delivers-front p content addr h)

-- Overwriting the wire CID, behind the first byte, by the real one.
overwrite :
    (head : ℕ) (wire cid rest tail : List ℕ)
    → length wire ≡ 16
    → length cid ≡ 16
    → take 1 (head ∷ (wire ++ rest) ++ tail) ++ copy (drop 1 (head ∷ (wire ++ rest) ++ tail)) cid
      ≡ (head ∷ (cid ++ rest)) ++ tail
overwrite head wire cid rest tail hw hc = ap (◌∷◌ head) (
    rw
      (
        take_all cid (length ((wire ++ rest) ++ tail))
            (omega (arith, length-append (wire ++ rest) tail, length-append wire rest)),
        hc,
        append_assoc wire rest tail,
        drop-append wire (rest ++ tail) 16 hw,
      )
      (sym (append_assoc cid rest tail)))

same_size :
    (head : ℕ) (wire cid rest : List ℕ)
    → length wire ≡ 16
    → length cid ≡ 16
    → length (head ∷ (wire ++ rest)) ≡ length (head ∷ (cid ++ rest))
same_size head wire cid rest hw hc = omega (arith, length-append wire rest, length-append cid rest)

deliver_restored-eq :
    (p : List ℕ) (head : ℕ) (wire cid rest : List ℕ) (addr : Option Addr)
    → length wire ≡ 16
    → length cid ≡ 16
    → length (head ∷ cid ++ rest) ≤ length p
    → deliver_restored p (head ∷ wire ++ rest) cid addr
      ≡ some (record {
        n = min (length p) (length (head ∷ cid ++ rest));
        buffer = (head ∷ cid ++ rest) ++ drop (length (head ∷ cid ++ rest)) p;
        addr = addr;
        err = none;
      })
unfolding deliver_restored
deliver_restored-eq p head wire cid rest addr hw hc h =
    let size = same_size head wire cid rest hw hc in
    let enough : ltb (length p) 1 ≡ false = ground arith in
    let front = copy_fits p (head ∷ (wire ++ rest)) (omega (arith, size)) in
    let bytes = overwrite head wire cid rest (drop (length (head ∷ (wire ++ rest))) p) hw hc in
    rw enough (
      ap₂ (λ (k : ℕ) (b : List ℕ). some (record { n = k; buffer = b; addr = addr; err = none }))
        (ap (min (length p)) size)
        (ap (λ (b : List ℕ). take 1 b ++ copy (drop 1 b) cid) front
          ∙ bytes
          ∙ ap (λ (k : ℕ). (head ∷ (cid ++ rest)) ++ drop k p) size))

-- With the real CID put back the packet is the one that was sent before its CID was hidden.
pub deliver_restored-Delivers :
    (p : List ℕ) (head : ℕ) (wire cid rest : List ℕ) (addr : Option Addr)
    → length wire ≡ 16
    → length cid ≡ 16
    → length (head ∷ cid ++ rest) ≤ length p
    → (d : Delivery) × (deliver_restored p (head ∷ wire ++ rest) cid addr ≡ some d)
      × Delivers p (head ∷ cid ++ rest) addr d
deliver_restored-Delivers p head wire cid rest addr hw hc h = (
  record {
    n = min (length p) (length (head ∷ cid ++ rest));
    buffer = (head ∷ cid ++ rest) ++ drop (length (head ∷ cid ++ rest)) p;
    addr = addr;
    err = none;
  },
  deliver_restored-eq p head wire cid rest addr hw hc h,
  Delivers-front p (head ∷ cid ++ rest) addr h,
)

-- ===== src/Session/Lookup.antt =====
-- A cache as the set of CIDs that were added: `FindByReal` decides membership.
use quic_hop.Base.{
  ℕ, ◌≡◌, sym, ◌∙◌, List, none, some, length, Option-cases, Bool-cases, inl, inr, if◌then◌else◌,
}
use quic_hop.Base.Assoc.{lookup, lookup-insert, bytes_beq, bytes_beq_iff, bytes_keys}
use quic_hop.Base.BitArray.{IsBytes}
use quic_hop.Session.{CidCache, add_entry, add_real, real_at, find_by_real}
use quic_hop.Session.Invariant.{IsValid, add_real_known, add_real_new, add_entry-IsValid}

-- A CID with an entry is found as it is.
pub find_by_real_known :
    (c : CidCache) (k : List ℕ) (p : ℕ)
    → IsValid c
    → lookup k c.entries ≡ some p
    → find_by_real c k ≡ some k
unfolding find_by_real real_at
find_by_real_known c k p v h = rw (h, (v.entry k p h).0)

pub find_by_real_unknown :
    (c : CidCache) (k : List ℕ) → lookup k c.entries ≡ none → find_by_real c k ≡ none
unfolding find_by_real
find_by_real_unknown c k h = rw h

-- What is found is what was asked for, and has an entry.
pub find_by_real_found :
    (c : CidCache) (k r : List ℕ)
    → IsValid c
    → find_by_real c k ≡ some r
    → (k ≡ r) × (p : ℕ) × (lookup k c.entries ≡ some p)
find_by_real_found c k r v h = elim (Option-cases (lookup k c.entries)) [
  | inl missing ↦ let nothing = find_by_real_unknown c k missing in absurd (cc nothing)
  | inr (p, there) ↦ let found = find_by_real_known c k p v there in (cc found, p, there)
]

pub find_by_real_missing :
    (c : CidCache) (k : List ℕ) → IsValid c → find_by_real c k ≡ none → lookup k c.entries ≡ none
find_by_real_missing c k v h = elim (Option-cases (lookup k c.entries)) [
  | inl missing ↦ missing
  | inr (p, there) ↦ let found = find_by_real_known c k p v there in absurd (cc found)
]

pub entries-add_entry :
    (c : CidCache) (k j : List ℕ)
    → lookup j (add_entry c k).entries
      ≡ (if bytes_beq k j then some (length c.store) else lookup j c.entries)
unfolding add_entry
entries-add_entry c k j = lookup-insert k j (length c.store) c.entries

add_entry_lem :
    (c : CidCache) (k j : List ℕ)
    → IsValid c
    → IsBytes k
    → lookup k c.entries ≡ none
    → find_by_real (add_entry c k) j ≡ (if bytes_beq k j then some j else find_by_real c j)
add_entry_lem c k j v bytes new = elim (Bool-cases (bytes_beq k j)) [
  | inl same ↦
      rw same (
        find_by_real_known (add_entry c k) j (length c.store) v'
          (entries-add_entry c k j ∙ rw same))
  | inr other ↦
      let kept : lookup j (add_entry c k).entries ≡ lookup j c.entries =
        entries-add_entry c k j ∙ rw other in
      rw other (elim (Option-cases (lookup j c.entries)) [
        | inl missing ↦
            find_by_real_unknown (add_entry c k) j (kept ∙ missing)
            ∙ sym (find_by_real_unknown c j missing)
        | inr (p, there) ↦
            find_by_real_known (add_entry c k) j p v' (kept ∙ there)
            ∙ sym (find_by_real_known c j p v there)
      ])
]
  where
    v' : IsValid (add_entry c k)
    v' = add_entry-IsValid c k v new bytes

-- In a valid cache, `AddReal` of bytes makes its CID known and leaves every other CID known or
-- unknown as it was.
pub find_by_real-add_real :
    (c : CidCache) (k j : List ℕ)
    → IsValid c
    → IsBytes k
    → find_by_real (add_real c k) j ≡ (if bytes_beq k j then some j else find_by_real c j)
find_by_real-add_real c k j v bytes = elim (Option-cases (lookup k c.entries)) [
  | inl new ↦ rw (add_real_new c k new) (add_entry_lem c k j v bytes new)
  | inr (p, known) ↦ rw (add_real_known c k p v known) (elim (Bool-cases (bytes_beq k j)) [
    | inl same ↦
        let equal : k ≡ j = (bytes_beq_iff k j).0 same in
        rw same (rw equal at (find_by_real_known c k p v known))
    | inr other ↦ rw other
  ])
]

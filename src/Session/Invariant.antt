-- ===== src/Session/Invariant.antt =====
-- What every cache satisfies that is made by `NewCIDCache` and `AddReal`: both maps point at
-- entries of the store that carry the key they are found under.
use quic_hop.Base.{
  ℕ, zero, suc, ◌≡◌, refl, sym, ap, ◌∙◌, ◌≢◌, List, [], ◌∷◌, ◌++◌, none, some, arith, length,
  get_elem?, Option-cases, Bool-cases, inl, inr, ◌==◌, ==_iff,
}
use quic_hop.Base.Assoc.{
  lookup, insert, lookup-insert, lookup-insert_self, bytes_beq, bytes_beq_iff, bytes_keys,
  number_keys,
}
use quic_hop.Base.BitArray.{IsBytes}
use quic_hop.Session.{
  CidEntry, CidCache, new_cid_cache, clone_bytes, entry_hash, replace_real, add_entry, add_real,
}
use quic_hop.Session.Prefix.{clone_bytes_lem}

-- `p` points at the entry that a CID was stored with.
abbrev pub Holds : List CidEntry → ℕ → List ℕ → Type 0
Holds store p real =
    get_elem? store p ≡ some (record { real = real; prefix56_hash = entry_hash real })

pub record IsValid (c : CidCache) : Type 0 where
  pub entry : (k : List ℕ) (p : ℕ) → lookup k c.entries ≡ some p → Holds c.store p k × IsBytes k
  pub index :
      (h p : ℕ)
      → lookup h c.prefix56_index ≡ some p
      → (k : List ℕ) × (lookup k c.entries ≡ some p) × (entry_hash k ≡ h) × (h ≢ 0)
  pub indexed :
      (k : List ℕ) (p : ℕ)
      → lookup k c.entries ≡ some p
      → entry_hash k ≢ 0
      → (q : ℕ) × (lookup (entry_hash k) c.prefix56_index ≡ some q)

pub new_cid_cache-IsValid : IsValid new_cid_cache
unfolding new_cid_cache lookup
new_cid_cache-IsValid = record {
  entry = λ k p h. absurd (cc);
  index = λ h p e. absurd (cc);
  indexed = λ k p h e. absurd (cc);
}

-- Writing the CID that is there already changes nothing.
replace_real_same :
    (store : List CidEntry) (p : ℕ) (k : List ℕ) → Holds store p k → replace_real store p k ≡ store
unfolding replace_real
replace_real_same [] p k h = refl
replace_real_same (e ∷ es) zero k h = ground (arith, clone_bytes_lem k)
replace_real_same (e ∷ es) (suc p) k h = ap (◌∷◌ e) (replace_real_same es p k h)

-- A known CID leaves the cache as it is.
pub add_real_known :
    (c : CidCache) (k : List ℕ) (p : ℕ) → IsValid c → lookup k c.entries ≡ some p → add_real c k ≡ c
unfolding add_real
add_real_known c k p v h =
    rw (h, add_real)
      (ap (λ s. record c { store = s }) (replace_real_same c.store p k (v.entry k p h).0))

pub add_real_new :
    (c : CidCache) (k : List ℕ) → lookup k c.entries ≡ none → add_real c k ≡ add_entry c k
unfolding add_real
add_real_new c k h = rw (h, add_real)

get_elem?-append {ℓ} :
    {A : Type ℓ} (xs : List A) (x : A) (p : ℕ) {a : A}
    → get_elem? xs p ≡ some a
    → get_elem? (xs ++ x ∷ []) p ≡ some a
get_elem?-append [] x p h = cc
get_elem?-append (y ∷ xs) x zero h = h
get_elem?-append (y ∷ xs) x (suc p) h = get_elem?-append xs x p h

get_elem?-append_end {ℓ} :
    {A : Type ℓ} (xs : List A) (x : A) → get_elem? (xs ++ x ∷ []) (length xs) ≡ some x
get_elem?-append_end [] x = refl
get_elem?-append_end (y ∷ xs) x = get_elem?-append_end xs x

module _ (c : CidCache) (k : List ℕ) (v : IsValid c) (new : lookup k c.entries ≡ none)
    (bytes : IsBytes k) where
  still_there :
      (j : List ℕ) (q : ℕ)
      → lookup j c.entries ≡ some q
      → lookup j (insert k (length c.store) c.entries) ≡ some q
  still_there j q h = elim (Bool-cases (bytes_beq k j)) [
    | inl same ↦
        let equal : k ≡ j = (bytes_beq_iff k j).0 same in
        let missing : lookup j c.entries ≡ none = rw equal at new in cc
    | inr other ↦ lookup-insert k j (length c.store) c.entries ∙ rw other h
  ]

  add_entry_entry :
      (j : List ℕ) (q : ℕ)
      → lookup j (insert k (length c.store) c.entries) ≡ some q
      → Holds (add_entry c k).store q j × IsBytes j
  unfolding add_entry
  add_entry_entry j q h = elim (Bool-cases (bytes_beq k j)) [
    | inl same ↦
        let equal : k ≡ j = (bytes_beq_iff k j).0 same in
        let place : some (length c.store) ≡ some q =
          rw same at (sym (lookup-insert k j (length c.store) c.entries) ∙ h) in
        let place' : length c.store ≡ q = cc in
        rw (← equal, ← place')
          (
            get_elem?-append_end c.store
                  (record { real = clone_bytes k; prefix56_hash = entry_hash k })
                ∙ ap (λ (x : List ℕ). some (record { real = x; prefix56_hash = entry_hash k }))
                    (clone_bytes_lem k),
            bytes,
          )
    | inr other ↦
        let old : lookup j c.entries ≡ some q =
          rw other at (sym (lookup-insert k j (length c.store) c.entries) ∙ h) in
        (get_elem?-append c.store _ q (v.entry j q old).0, (v.entry j q old).1)
  ]

  add_entry_index :
      (h q : ℕ)
      → lookup h (add_entry c k).prefix56_index ≡ some q
      → (j : List ℕ) × (lookup j (insert k (length c.store) c.entries) ≡ some q)
        × (entry_hash j ≡ h)
        × (h ≢ 0)
  unfolding add_entry
  add_entry_index h q found = elim (Bool-cases (entry_hash k == 0)) [
    | inl zeroed ↦
        let old = v.index h q (rw zeroed at found) in
        (old.0, still_there old.0 q old.1, old.2, old.3)
    | inr some_hash ↦
        let found' : lookup h (insert (entry_hash k) (length c.store) c.prefix56_index) ≡ some q =
          rw some_hash at found in
        elim (Bool-cases (entry_hash k == h)) [
          | inl same ↦
              let place : some (length c.store) ≡ some q =
                rw same at (
                  sym (lookup-insert (entry_hash k) h (length c.store) c.prefix56_index)
                  ∙ found') in
              let place' : length c.store ≡ q = cc in
              (
                k,
                rw (← place') (lookup-insert_self k (length c.store) c.entries),
                (==_iff _ _).0 same,
                ground arith,
              )
          | inr other ↦
              let old = v.index h q (
                rw other at (
                  sym (lookup-insert (entry_hash k) h (length c.store) c.prefix56_index)
                  ∙ found')) in
              (old.0, still_there old.0 q old.1, old.2, old.3)
        ]
  ]

  -- The newest CID owns the place of its hash.
  pub newest_indexed :
      entry_hash k ≢ 0
      → lookup (entry_hash k) (add_entry c k).prefix56_index ≡ some (length c.store)
  unfolding add_entry
  newest_indexed nonzero = elim (Bool-cases (entry_hash k == 0)) [
    | inl zeroed ↦ absurd (nonzero ((==_iff _ _).0 zeroed))
    | inr some_hash ↦
        rw some_hash (lookup-insert_self (entry_hash k) (length c.store) c.prefix56_index)
  ]

  still_indexed :
      (h q : ℕ)
      → lookup h c.prefix56_index ≡ some q
      → (q' : ℕ) × (lookup h (add_entry c k).prefix56_index ≡ some q')
  unfolding add_entry
  still_indexed h q e = elim (Bool-cases (entry_hash k == 0)) [
    | inl zeroed ↦ (q, rw zeroed e)
    | inr some_hash ↦ elim (Bool-cases (entry_hash k == h)) [
      | inl same ↦ (
        length c.store,
        rw some_hash (lookup-insert (entry_hash k) h (length c.store) c.prefix56_index ∙ rw same),
      )
      | inr other ↦ (
        q,
        rw some_hash
            (lookup-insert (entry_hash k) h (length c.store) c.prefix56_index ∙ rw other e),
      )
    ]
  ]

  add_entry_indexed :
      (j : List ℕ) (p : ℕ)
      → lookup j (insert k (length c.store) c.entries) ≡ some p
      → entry_hash j ≢ 0
      → (q : ℕ) × (lookup (entry_hash j) (add_entry c k).prefix56_index ≡ some q)
  add_entry_indexed j p h nonzero = elim (Bool-cases (bytes_beq k j)) [
    | inl same ↦
        let hashes : entry_hash k ≡ entry_hash j = ap entry_hash ((bytes_beq_iff k j).0 same) in
        (length c.store, rw (← hashes) (newest_indexed (rw hashes nonzero)))
    | inr other ↦
        let old =
          v.indexed j p (rw other at (sym (lookup-insert k j (length c.store) c.entries) ∙ h))
            nonzero in
        still_indexed (entry_hash j) old.0 old.1
  ]

  pub add_entry-IsValid : IsValid (add_entry c k)
  unfolding add_entry
  add_entry-IsValid = record {
    entry = add_entry_entry;
    index = add_entry_index;
    indexed = add_entry_indexed;
  }

-- `AddReal` of bytes keeps a cache valid, whether the CID is a new or a known one.
pub add_real-IsValid : (c : CidCache) (k : List ℕ) → IsValid c → IsBytes k → IsValid (add_real c k)
add_real-IsValid c k v bytes = elim (Option-cases (lookup k c.entries)) [
  | inl new ↦ rw (add_real_new c k new) (add_entry-IsValid c k v new bytes)
  | inr (p, known) ↦ rw (add_real_known c k p v known) v
]

-- ===== src/Strconv.antt =====
-- What the programs use of Go's strconv and bytes packages: `FormatUint` in base 10, the value that
-- `ParseUint` gives (the programs drop its error), and on ASCII text `Fields`,
-- `Split`, `HasPrefix` and `LastIndexByte`.
pub mod RoundTrip
pub mod Words
use quic_hop.Base.{
  ℕ, zero, suc, ◌+◌, ◌-◌, ◌*◌, ◌/◌, ◌%◌, ◌^◌, List, [], ◌∷◌, ◌++◌, Bool, true, false, ◌||◌, ◌&&◌,
  Option, none, some, u64, ltb, leb, ◌==◌, if◌then◌else◌,
}

-- The digits of `n` before `later`; 20 rounds are enough below 10^20.
unfoldable pub digits_before : ℕ → ℕ → List ℕ → List ℕ
digits_before zero n later = later
digits_before (suc fuel) n later =
    if ltb n 10 then (48 + n) ∷ later else digits_before fuel (n / 10) ((48 + n % 10) ∷ later)

unfoldable pub decimal : ℕ → List ℕ
unfolding digits_before
decimal n = digits_before 20 n []

abbrev pub max_uint64 : ℕ
max_uint64 = 2 ^ 64 - 1

-- The value is 0 after a byte that is no digit, and the greatest `uint64` after an overflow.
unfoldable pub parse_loop : List ℕ → ℕ → ℕ
parse_loop [] n = n
parse_loop (c ∷ s) n =
    let digit = c - 48 in
    let rest = parse_loop s (u64 (n * 10 + digit)) in
    if ltb c 48 || ltb 57 c
    then 0
    else if leb (max_uint64 / 10 + 1) n
    then max_uint64
    else if ltb (u64 (n * 10 + digit)) (n * 10)
    then max_uint64
    else rest

unfoldable pub parse_uint : List ℕ → ℕ
unfolding parse_loop
parse_uint s = parse_loop s 0

-- `unicode.IsSpace` of an ASCII byte: tab, newline, vertical tab, form feed, carriage return, space.
abbrev pub is_space : ℕ → Bool
is_space c = (leb 9 c && leb c 13) || (c == 32)

-- `bytes.Fields` on ASCII text: on other bytes the Go function also splits at the white space of
-- Unicode. `word` is what has been read of the present field.
unfoldable pub fields_from : List ℕ → List ℕ → List (List ℕ)
fields_from [] [] = []
fields_from [] (w ∷ word) = (w ∷ word) ∷ []
fields_from (c ∷ s) [] =
    let rest = fields_from s [] in
    let longer = fields_from s (c ∷ []) in if is_space c then rest else longer
fields_from (c ∷ s) (w ∷ word) =
    let rest = fields_from s [] in
    let longer = fields_from s (w ∷ word ++ c ∷ []) in
    if is_space c then (w ∷ word) ∷ rest else longer

unfoldable pub fields : List ℕ → List (List ℕ)
unfolding fields_from
fields s = fields_from s []

unfoldable pub last_index : ℕ → List ℕ → Option ℕ
last_index c [] = none
last_index c (b ∷ bs) = elim (last_index c bs) [
  | some i ↦ some (suc i)
  | none ↦ if b == c then some 0 else none
]

-- `word` is what has been read of the present piece.
unfoldable pub split_from : ℕ → List ℕ → List ℕ → List (List ℕ)
split_from sep [] word = word ∷ []
split_from sep (c ∷ s) word =
    let rest = split_from sep s [] in
    let longer = split_from sep s (word ++ c ∷ []) in if c == sep then word ∷ rest else longer

-- `bytes.Split` by one byte.
unfoldable pub split_on : ℕ → List ℕ → List (List ℕ)
unfolding split_from
split_on sep s = split_from sep s []

unfoldable pub has_prefix : List ℕ → List ℕ → Bool
has_prefix s [] = true
has_prefix [] (p ∷ ps) = false
has_prefix (c ∷ s) (p ∷ ps) = (c == p) && has_prefix s ps

-- ===== src/Strconv/Words.antt =====
-- Text made of words and single spaces, taken apart.
use quic_hop.Base.{
  ℕ, ◌<◌, ◌≡◌, ◌≢◌, refl, sym, ap, ◌∙◌, List, [], ◌∷◌, ◌++◌, none, some, true, false, length, ◌==◌,
  arith,
}
use mathlib.Core.List.{append-nil, append_assoc}
use quic_hop.Strconv.{fields_from, fields, is_space, last_index}

-- No white space in it.
unfoldable pub IsSolid : List ℕ → Type 0
IsSolid [] = Unit
IsSolid (c ∷ s) = (is_space c ≡ false) × IsSolid s

unfoldable pub IsWord : List ℕ → Type 0
unfolding IsSolid
IsWord s = (s ≢ []) × IsSolid s

unfoldable pub AreWords : List (List ℕ) → Type 0
unfolding IsWord
AreWords [] = Unit
AreWords (w ∷ ws) = IsWord w × AreWords ws

-- Every byte is one of ASCII.
unfoldable pub IsAscii : List ℕ → Type 0
IsAscii [] = Unit
IsAscii (c ∷ s) = (c < 128) × IsAscii s

-- One line of words.
unfoldable pub line_of : List (List ℕ) → List ℕ
line_of [] = 10 ∷ []
line_of (w ∷ ws) = w ++ 32 ∷ line_of ws

fields_from-word :
    (word : List ℕ) (c : ℕ) (w rest : List ℕ)
    → IsSolid w
    → fields_from (w ++ 32 ∷ rest) (c ∷ word) ≡ (c ∷ word ++ w) ∷ fields rest
unfolding fields_from fields IsSolid
fields_from-word word c [] rest solid =
    ap (λ (v : List ℕ). (c ∷ v) ∷ fields rest) (sym (append-nil word))
fields_from-word word c (d ∷ w) rest solid = rw (solid.0) (
    fields_from-word (word ++ d ∷ []) c w rest solid.1
    ∙ ap (λ (v : List ℕ). (c ∷ v) ∷ fields rest) (append_assoc word (d ∷ []) w))

pub fields-line_of : (ws : List (List ℕ)) → AreWords ws → fields (line_of ws) ≡ ws
unfolding fields fields_from line_of AreWords IsWord IsSolid
fields-line_of [] words = refl
fields-line_of ([] ∷ ws) words = absurd (words.0.0 refl)
fields-line_of ((c ∷ w) ∷ ws) words = rw (words.0.1.0) (
    fields_from-word [] c w (line_of ws) words.0.1.1
    ∙ ap (λ (v : List (List ℕ)). (c ∷ w) ∷ v) (fields-line_of ws words.1))

unfoldable pub Lacks : ℕ → List ℕ → Type 0
Lacks c [] = Unit
Lacks c (b ∷ bs) = ((b == c) ≡ false) × Lacks c bs

last_index-lacking : (c : ℕ) (bs : List ℕ) → Lacks c bs → last_index c bs ≡ none
unfolding last_index Lacks
last_index-lacking c [] h = refl
last_index-lacking c (b ∷ bs) h = rw (last_index-lacking c bs h.1, h.0) refl

-- Everything behind the last byte `c` is without it.
pub last_index-append :
    (c : ℕ) (before after : List ℕ)
    → Lacks c after
    → last_index c (before ++ c ∷ after) ≡ some (length before)
unfolding last_index
last_index-append c [] after h =
    let same : (c == c) ≡ true = ground arith in rw (last_index-lacking c after h, same) refl
last_index-append c (b ∷ bs) after h = rw (last_index-append c bs after h) refl

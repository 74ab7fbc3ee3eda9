-- ===== src/Util/Table.antt =====
-- lib/util/table.hpp and .cpp: a table of texts, printed with its cells centred. A text is its bytes,
-- and the two maps are lists in the order of their keys.
pub mod Widths
pub mod Print
pub mod Set
use arby.Common.{
  ℕ, suc, zero, ◌+◌, ◌-◌, ◌/◌, ◌≡◌, max, Bool, true, false, ltb, ◌==◌, if◌then◌else◌, Option, none,
  some, List, [], ◌∷◌, ◌++◌, length, replicate, take, ◌%◌, ◌^◌,
}
use arby.Common.Result.{Result, ok, err, ◌>>=◌, ◌>>◌, guard, out_of_range, length_error}

abbrev pub Text : Type 0
Text = List ℕ

abbrev pub Cells : Type 0
Cells = List (ℕ × Text)

abbrev pub Data : Type 0
Data = List (ℕ × Cells)

pub record Table : Type 0 where
  pub data_ : Data
  pub rows : ℕ

-- `find`
unfoldable pub find {ℓ} : {A : Type ℓ} → ℕ → List (ℕ × A) → Option A
find k [] = none
find k ((j, a) ∷ m) = if j == k then some a else find k m

-- The map with the value at `k`, a new entry in the order of the keys.
unfoldable pub put {ℓ} : {A : Type ℓ} → ℕ → A → List (ℕ × A) → List (ℕ × A)
put k a [] = (k, a) ∷ []
put k a ((j, b) ∷ m) =
    let rest = put k a m in
    if ltb k j then (k, a) ∷ (j, b) ∷ m else if j == k then (j, a) ∷ m else (j, b) ∷ rest

abbrev pub row_or_new : Option Cells → Cells
row_or_new none = []
row_or_new (some cells) = cells

unfoldable pub set : ℕ → ℕ → Text → Table → Table
set row col s t = record {
  data_ = put row (put col s (row_or_new (find row t.data_))) t.data_;
  rows = max t.rows row;
}

-- `result.resize(n, 0)`: `max_size` is that of the vector, beyond which it throws.
unfoldable pub resize : ℕ → ℕ → List ℕ → Result (List ℕ)
resize max_size n ws =
    if ltb max_size n
    then err length_error
    else if ltb n (length ws)
    then ok (take n ws)
    else ok (ws ++ replicate (n - length ws) 0)

-- `c + 1` is a `size_t` and wraps around.
unfoldable pub enlarge : ℕ → ℕ → List ℕ → Result (List ℕ)
enlarge max_size c ws = if ltb c (length ws) then ok ws else resize max_size ((c + 1) % 2 ^ 64) ws

-- `result[c] = std::max(result[c], n)`
unfoldable pub raise : ℕ → ℕ → List ℕ → Result (List ℕ)
raise c n [] = err out_of_range
raise zero n (w ∷ ws) = ok (max w n ∷ ws)
raise (suc c) n (w ∷ ws) = raise c n ws >>= λ rest. ok (w ∷ rest)

unfoldable pub row_widths : ℕ → Cells → List ℕ → Result (List ℕ)
row_widths max_size [] ws = ok ws
row_widths max_size ((c, s) ∷ cells) ws =
    enlarge max_size c ws >>= raise c (length s) >>= row_widths max_size cells

unfoldable pub data_widths : ℕ → Data → List ℕ → Result (List ℕ)
data_widths max_size [] ws = ok ws
data_widths max_size ((r, cells) ∷ lines) ws =
    row_widths max_size cells ws >>= data_widths max_size lines

unfoldable pub calc_widths : ℕ → Table → Result (List ℕ)
calc_widths max_size t = data_widths max_size t.data_ []

abbrev spaces : ℕ → Text
spaces n = replicate n b' '

-- A field shorter than the text wraps around to a size that no string has: the constructor throws.
unfoldable pub pad : Text → ℕ → Result Text
pad s field =
    let pre = (field - length s) / 2 in
    let t = spaces pre ++ s in
    if ltb field (length s) then err out_of_range else ok (t ++ spaces (field - length t))

-- A cell that is not there is printed as an empty text.
abbrev pub cell : ℕ → Cells → Text
cell col cells = elim (find col cells) [ none ↦ [] | some s ↦ s ]

-- The columns from `col` on, with the separator in front.
unfoldable pub print_cells : Text → List ℕ → ℕ → Cells → Result Text
print_cells sep [] col cells = ok []
print_cells sep (w ∷ ws) col cells = do
  padded ← pad (cell col cells) w
  rest ← print_cells (b' ' ∷ b'|' ∷ b' ' ∷ []) ws (col + 1) cells
  ok (sep ++ (padded ++ rest))

unfoldable pub print_rows : Text → List ℕ → Data → Result Text
print_rows nl ws [] = ok []
print_rows nl ws ((r, cells) ∷ lines) = do
  line ← print_cells [] ws 0 cells
  rest ← print_rows (b'\n' ∷ []) ws lines
  ok (nl ++ (line ++ rest))

-- `operator<<`
unfoldable pub print : ℕ → Table → Result Text
print max_size t = calc_widths max_size t >>= λ ws. print_rows [] ws t.data_

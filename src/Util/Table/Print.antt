-- ===== src/Util/Table/Print.antt =====
-- When a table is printed with no fault, in lines of one length.
use arby.Common.{
  ℕ, suc, ◌+◌, ◌-◌, ◌/◌, ◌≤◌, ◌<◌, ◌^◌, ◌≡◌, refl, ap, subst, List, [], ◌∷◌, ◌++◌, length,
  replicate, length-append, length-replicate, All, arith,
}
use arby.Common.Result.{ok}
use arby.Util.Table.{
  Text, Cells, Data, Table, find, cell, pad, print_cells, print_rows, print, calc_widths,
}
use arby.Util.Table.Widths.{width, Fits, InBounds, data_widths-Fits}

pad-ok :
    (s : Text) (field : ℕ)
    → length s ≤ field
    → (t : Text) × (pad s field ≡ ok t) × (length t ≡ field)
unfolding pad
pad-ok s field fits =
    let pre = replicate ((field - length s) / 2) b' ' in
    let field' = field - length (pre ++ s) in
    (
      (pre ++ s) ++ replicate field' b' ',
      ground arith,
      omega (
        arith,
        length-append (pre ++ s) (replicate field' b' '),
        length-append pre s,
        length-replicate {A = ℕ} ((field - length s) / 2) b' ',
        length-replicate {A = ℕ} field' b' ',
      ),
    )

cell-Fits :
    (c : ℕ) (cells : Cells) (ws : List ℕ) → Fits ws cells → length (cell c cells) ≤ width c ws
unfolding find
cell-Fits c [] ws fits = omega arith
cell-Fits c ((d, s) ∷ cells) ws fits = ground (arith, cell-Fits c cells ws fits.1, fits.0)

cell-Fits_from :
    (i : ℕ) (cells : Cells) (ws : List ℕ) → Fits ws cells → length (cell (0 + i) cells) ≤ width i ws
cell-Fits_from i cells ws fits =
    let here : i ≡ 0 + i = omega arith in
    subst (λ c. length (cell c cells) ≤ width i ws) here (cell-Fits i cells ws fits)

-- The length of a line with a separator of length `n` in front.
unfoldable pub line_length : ℕ → List ℕ → ℕ
line_length n [] = 0
line_length n (w ∷ ws) = n + w + line_length 3 ws

print_cells-ok :
    (sep : Text) (ws : List ℕ) (col : ℕ) (cells : Cells)
    → ((i : ℕ) → length (cell (col + i) cells) ≤ width i ws)
    → (t : Text) × (print_cells sep ws col cells ≡ ok t) × (length t ≡ line_length (length sep) ws)
unfolding print_cells line_length width
print_cells-ok sep [] col cells fits = ([], refl, refl)
print_cells-ok sep (w ∷ ws) col cells fits =
    let here : col + 0 ≡ col = omega arith in
    let next : (i : ℕ) → col + suc i ≡ col + 1 + i = λ i. omega arith in
    let (p, padded, p_length) =
      pad-ok (cell col cells) w (subst (λ c. length (cell c cells) ≤ w) here (fits 0)) in
    let (t, rest, t_length) =
      print_cells-ok (b' ' ∷ b'|' ∷ b' ' ∷ []) ws (col + 1) cells
        (λ i. subst (λ c. length (cell c cells) ≤ width i ws) (next i) (fits (suc i))) in
    (
      sep ++ (p ++ t),
      rw (padded, rest) refl,
      omega (arith, length-append sep (p ++ t), length-append p t, p_length, t_length),
    )

-- The lines, with `nl` in front of the first one and a line feed in front of each other one.
unfoldable pub join : Text → List Text → Text
join nl [] = []
join nl (l ∷ ls) = nl ++ (l ++ join (b'\n' ∷ []) ls)

print_rows-ok :
    (nl : Text) (ws : List ℕ) (rows : Data)
    → All (λ x. Fits ws x.1) rows
    → (ls : List Text) × (print_rows nl ws rows ≡ ok (join nl ls))
      × (length ls ≡ length rows)
      × All (λ l. length l ≡ line_length 0 ws) ls
unfolding print_rows join
print_rows-ok nl ws [] fits = ([], refl, refl, tt)
print_rows-ok nl ws ((r, cells) ∷ rows) fits =
    let (l, line, l_length) =
      print_cells-ok [] ws 0 cells (λ i. cell-Fits_from i cells ws fits.0) in
    let (ls, rest, number, lengths) = print_rows-ok (b'\n' ∷ []) ws rows fits.1 in
    (l ∷ ls, rw (line, rest) refl, ap suc number, (l_length, lengths))

-- If each column is below the greatest size of a vector, which is below 2^64, a table is printed with
-- no fault, a line for each row that has a cell, and the lines have the length that the widths, of which
-- there are enough for each text to fit, and the separators between them make.
pub print-lines :
    (max_size : ℕ) (t : Table)
    → max_size < 2 ^ 64
    → All (λ x. InBounds max_size x.1) t.data_
    → (ws : List ℕ) × (ls : List Text) × (calc_widths max_size t ≡ ok ws)
      × All (λ x. Fits ws x.1) t.data_
      × (print max_size t ≡ ok (join [] ls))
      × (length ls ≡ length t.data_)
      × All (λ l. length l ≡ line_length 0 ws) ls
unfolding print calc_widths
print-lines max_size t small within =
    let (ws, widths, fits) = data_widths-Fits max_size t.data_ small within in
    let (ls, lines, number, lengths) = print_rows-ok [] ws t.data_ fits in
    (ws, ls, widths, fits, rw widths lines, number, lengths)

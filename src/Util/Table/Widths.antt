-- ===== src/Util/Table/Widths.antt =====
-- Each column is as wide as the widest of its texts.
use arby.Common.{
  max, ltb, if◌then◌else◌, ◌^◌, ℕ, suc, zero, ◌+◌, ◌-◌, ◌≤◌, ◌<◌, ◌≡◌, refl, List, [], ◌∷◌, ◌++◌,
  length, replicate, length-append, length-replicate, All, arith,
}
use arby.Common.Result.{ok}
use arby.Util.Table.{Cells, Data, resize, enlarge, raise, row_widths, data_widths}

-- The widths over lists that have no bound and into which nothing is written out of range.
unfoldable grown : ℕ → List ℕ → List ℕ
grown c ws = if ltb c (length ws) then ws else ws ++ replicate (c + 1 - length ws) 0

unfoldable raised : ℕ → ℕ → List ℕ → List ℕ
raised c n [] = []
raised zero n (w ∷ ws) = max w n ∷ ws
raised (suc c) n (w ∷ ws) = w ∷ raised c n ws

unfoldable row_of : Cells → List ℕ → List ℕ
row_of [] ws = ws
row_of ((c, s) ∷ cells) ws = row_of cells (raised c (length s) (grown c ws))

unfoldable widths_of : Data → List ℕ → List ℕ
widths_of [] ws = ws
widths_of ((r, cells) ∷ lines) ws = widths_of lines (row_of cells ws)

-- The width of a column, 0 for one that is not there.
unfoldable pub width : ℕ → List ℕ → ℕ
width c [] = 0
width zero (w ∷ ws) = w
width (suc c) (w ∷ ws) = width c ws

width-replicate : (c n : ℕ) → width c (replicate n 0) ≡ 0
unfolding width
width-replicate c zero = refl
width-replicate zero (suc n) = refl
width-replicate (suc c) (suc n) = width-replicate c n

width-append : (c n : ℕ) (ws : List ℕ) → width c (ws ++ replicate n 0) ≡ width c ws
unfolding width
width-append c n [] = width-replicate c n
width-append zero n (w ∷ ws) = refl
width-append (suc c) n (w ∷ ws) = width-append c n ws

width-grown : (c d : ℕ) (ws : List ℕ) → width c (grown d ws) ≡ width c ws
unfolding grown
width-grown c d ws = ground (arith, width-append c (d + 1 - length ws) ws)

length-grown : (d : ℕ) (ws : List ℕ) → d < length (grown d ws)
unfolding grown
length-grown d ws = ground (
  arith,
  length-append ws (replicate (d + 1 - length ws) 0),
  length-replicate {A = ℕ} (d + 1 - length ws) 0,
)

raised-grows : (c d n : ℕ) (ws : List ℕ) → width c ws ≤ width c (raised d n ws)
unfolding width raised
raised-grows c d n [] = omega arith
raised-grows zero zero n (w ∷ ws) = omega arith
raised-grows (suc c) zero n (w ∷ ws) = omega arith
raised-grows zero (suc d) n (w ∷ ws) = omega arith
raised-grows (suc c) (suc d) n (w ∷ ws) = raised-grows c d n ws

raised-fits : (c n : ℕ) (ws : List ℕ) → c < length ws → n ≤ width c (raised c n ws)
unfolding width raised
raised-fits c n [] h = absurd (omega arith)
raised-fits zero n (w ∷ ws) h = omega arith
raised-fits (suc c) n (w ∷ ws) h = raised-fits c n ws (omega arith)

row_of-grows : (c : ℕ) (cells : Cells) (ws : List ℕ) → width c ws ≤ width c (row_of cells ws)
unfolding row_of
row_of-grows c [] ws = omega arith
row_of-grows c ((d, s) ∷ cells) ws = omega (
  arith,
  width-grown c d ws,
  raised-grows c d (length s) (grown d ws),
  row_of-grows c cells (raised d (length s) (grown d ws)),
)

widths_of-grows : (c : ℕ) (lines : Data) (ws : List ℕ) → width c ws ≤ width c (widths_of lines ws)
unfolding widths_of
widths_of-grows c [] ws = omega arith
widths_of-grows c ((r, cells) ∷ lines) ws =
    omega (arith, row_of-grows c cells ws, widths_of-grows c lines (row_of cells ws))

-- The texts of a row fit in the widths.
abbrev pub Fits : List ℕ → Cells → Type 0
Fits ws = All λ x. length x.1 ≤ width x.0 ws

Fits-mono :
    (v w : List ℕ) (cells : Cells) → ((c : ℕ) → width c v ≤ width c w) → Fits v cells → Fits w cells
Fits-mono v w [] more fits = tt
Fits-mono v w (x ∷ cells) more fits =
    (omega (arith, more x.0, fits.0), Fits-mono v w cells more fits.1)

row_of-Fits : (cells : Cells) (ws : List ℕ) → Fits (row_of cells ws) cells
unfolding row_of
row_of-Fits [] ws = tt
row_of-Fits ((c, s) ∷ cells) ws = (
  omega (
    arith,
    raised-fits c (length s) (grown c ws) (length-grown c ws),
    row_of-grows c cells (raised c (length s) (grown c ws)),
  ),
  row_of-Fits cells (raised c (length s) (grown c ws)),
)

widths_of-Fits : (lines : Data) (ws : List ℕ) → All (λ x. Fits (widths_of lines ws) x.1) lines
unfolding widths_of
widths_of-Fits [] ws = tt
widths_of-Fits ((r, cells) ∷ lines) ws = (
  Fits-mono (row_of cells ws) (widths_of lines (row_of cells ws)) cells
      (λ c. widths_of-grows c lines (row_of cells ws)) (row_of-Fits cells ws),
  widths_of-Fits lines (row_of cells ws),
)

-- Each column can be the last of a vector.
abbrev pub InBounds : ℕ → Cells → Type 0
InBounds max_size = All λ x. x.0 < max_size

enlarge_lem :
    (max_size c : ℕ) (ws : List ℕ)
    → max_size < 2 ^ 64
    → c < max_size
    → enlarge max_size c ws ≡ ok (grown c ws)
unfolding enlarge resize grown
enlarge_lem max_size c ws small within = ground arith

raise_lem : (c n : ℕ) (ws : List ℕ) → c < length ws → raise c n ws ≡ ok (raised c n ws)
unfolding raise raised
raise_lem c n [] h = absurd (omega arith)
raise_lem zero n (w ∷ ws) h = refl
raise_lem (suc c) n (w ∷ ws) h = rw (raise_lem c n ws (omega arith)) refl

row_widths_lem :
    (max_size : ℕ) (cells : Cells) (ws : List ℕ)
    → max_size < 2 ^ 64
    → InBounds max_size cells
    → row_widths max_size cells ws ≡ ok (row_of cells ws)
unfolding row_widths row_of
row_widths_lem max_size [] ws small within = refl
row_widths_lem max_size ((c, s) ∷ cells) ws small (first, within) =
    rw
      (
        enlarge_lem max_size c ws small first,
        raise_lem c (length s) (grown c ws) (length-grown c ws),
      )
      (row_widths_lem max_size cells (raised c (length s) (grown c ws)) small within)

data_widths_lem :
    (max_size : ℕ) (lines : Data) (ws : List ℕ)
    → max_size < 2 ^ 64
    → All (λ x. InBounds max_size x.1) lines
    → data_widths max_size lines ws ≡ ok (widths_of lines ws)
unfolding data_widths widths_of
data_widths_lem max_size [] ws small within = refl
data_widths_lem max_size ((r, cells) ∷ lines) ws small (first, within) =
    rw (row_widths_lem max_size cells ws small first)
      (data_widths_lem max_size lines (row_of cells ws) small within)

-- The widths are computed, and each text fits in them.
pub data_widths-Fits :
    (max_size : ℕ) (lines : Data)
    → max_size < 2 ^ 64
    → All (λ x. InBounds max_size x.1) lines
    → (ws : List ℕ) × (data_widths max_size lines [] ≡ ok ws) × All (λ x. Fits ws x.1) lines
data_widths-Fits max_size lines small within =
    (widths_of lines [], data_widths_lem max_size lines [] small within, widths_of-Fits lines [])

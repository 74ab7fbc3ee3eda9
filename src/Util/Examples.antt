-- ===== src/Util/Examples.antt =====
-- A printed table, and the theorem that it has lines of one length.
use arby.Common.{ℕ, ◌^◌, ◌-◌, arith, ◌≡◌, refl, some, List, [], ◌∷◌, length, All}
use arby.Common.Result.{ok}
use arby.Util.Table.{
  Table, Text, set, put, find, print, print_rows, print_cells, pad, calc_widths, data_widths,
  row_widths, raise, enlarge, resize,
}
use arby.Util.Table.Widths.{Fits}
use arby.Util.Table.Print.{join, line_length, print-lines}
use arby.Common.{◌≤◌, max}
use arby.Util.Truncate
use arby.Util.Truncate.{TruncateOp, Event, handle, run, view, transform, drop, pop}
use arby.Util.Truncate.Buffers.{shortened}
use arby.Util.Truncate.Runs.{Follows, new_thread, run-shows}

-- Two rows, of which the second has no text in the first column.
abbrev prices : Table
prices = set 1 1 (b'7' ∷ []) (
    set 0 1 (b'1' ∷ b'2' ∷ b'3' ∷ [])
      (set 0 0 (b'a' ∷ b'b' ∷ []) (record { data_ = []; rows = 0 })))

prices_test :
    print 1000 prices
    ≡ ok (
        b'a' ∷ b'b' ∷ b' ' ∷ b'|' ∷ b' ' ∷ b'1' ∷ b'2' ∷ b'3' ∷ b'\n' ∷ b' ' ∷ b' ' ∷ b' ' ∷ b'|'
        ∷ b' ' ∷ b' ' ∷ b'7' ∷ b' ' ∷ [])
unfolding print set put find print_rows print_cells pad calc_widths data_widths row_widths raise
    enlarge resize
prices_test = refl

print-lines_example :
    (ws : List ℕ) × (ls : List Text) × (calc_widths 1000 prices ≡ ok ws)
    × All (λ x. Fits ws x.1) prices.data_
    × (print 1000 prices ≡ ok (join [] ls))
    × (length ls ≡ length prices.data_)
    × All (λ l. length l ≡ line_length 0 ws) ls
unfolding set put find
print-lines_example =
    print-lines 1000 prices (omega arith)
      ((omega arith, (omega arith, tt)), ((omega arith, tt), tt))

-- In the last column that there is, the size wraps around to none.
last_column : enlarge 1000 (2 ^ 64 - 1) (3 ∷ []) ≡ ok []
unfolding enlarge resize
last_column = refl

-- A text of six bytes is shortened to four, dropped, and its buffer used for another one.
abbrev six : Truncate.Text
six = b'a' ∷ b'b' ∷ b'c' ∷ b'd' ∷ b'e' ∷ b'f' ∷ []

abbrev first_op : TruncateOp
first_op = record { source = six; limit = 4; node = some 0 }

abbrev truncations : List Event
truncations = Event.truncated six 4 ∷ Event.dropped [] first_op [] ∷ Event.truncated six 5 ∷ []

truncations-Follows : Follows truncations new_thread
unfolding handle transform drop pop
truncations-Follows = (refl, tt)

run-shows_example :
    All
      (λ op.
        (view (run truncations new_thread).buffers op ≡ shortened op.source op.limit)
        × (length (view (run truncations new_thread).buffers op) ≤ max op.limit 3))
      (run truncations new_thread).live
run-shows_example = run-shows truncations truncations-Follows

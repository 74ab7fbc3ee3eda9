-- ===== src/Util/Table/Set.antt =====
-- What `set` changes.
use arby.Common.{ℕ, ◌≡◌, refl, ◌==◌, ◌&&◌, if◌then◌else◌, Option, some, List, [], ◌∷◌, arith}
use arby.Util.Table.{Text, Table, find, put, row_or_new, set}

find-put {ℓ} :
    {A : Type ℓ} (j k : ℕ) (a : A) (m : List (ℕ × A))
    → find j (put k a m) ≡ (if k == j then some a else find j m)
unfolding find put
find-put j k a [] = refl
find-put j k a ((i, b) ∷ m) = ground (arith, find-put j k a m)

-- The text of a cell, if it was set.
abbrev pub text_at : ℕ → ℕ → Table → Option Text
text_at row col t = find col (row_or_new (find row t.data_))

-- After `set` the cell has the new text, and each other cell, of the same row too, has what it had.
pub text_at-set :
    (row col : ℕ) (s : Text) (t : Table) (r c : ℕ)
    → text_at r c (set row col s t) ≡ (if row == r && col == c then some s else text_at r c t)
unfolding set
text_at-set row col s t r c = ground (
  arith,
  find-put r row (put col s (row_or_new (find row t.data_))) t.data_,
  find-put c col s (row_or_new (find row t.data_)),
)

-- ===== src/Devices/Tty/Cells.antt =====
-- What the loops over the screen do to each cell, and that they leave all else.
use ogos.Prelude.{
  ℕ, zero, suc, ◌+◌, ◌-◌, ◌/◌, ◌%◌, ◌<◌, ◌≤◌, ◌≡◌, ◌∙◌, ◌&&◌, arith, ltb, leb, ◌==◌, if◌then◌else◌,
}
use ogos.Devices.Tty.{
  place, write, each_row, each_column, fill_row, scroll_row, scroll_rows, tty_make_entry,
}

place_test : (x y i : ℕ) → x < 80 → y < 25 → (place x y == i) ≡ ((i % 80 == x) && (i / 80 == y))
place_test x y i h k = ground arith

each_row_lem :
    (f : ℕ → ℕ) (n x y : ℕ) (b : ℕ → ℕ) (i : ℕ)
    → x < 80
    → y + n ≤ 25
    → each_row f n x y b i
      ≡ (if (i % 80 == x) && leb y (i / 80) && ltb (i / 80) (y + n) then f (b i) else b i)
unfolding each_row
each_row_lem f zero x y b i h k = ground arith
each_row_lem f (suc n) x y b i h k =
    each_row_lem f n x (y + 1) (write b (place x y) (f (b (place x y)))) i h (omega arith)
    ∙ ground (arith, place_test x y i h (omega arith))

-- The loops over columns reach the cells of the columns from x on and of the rows from y on.
pub each_column_lem :
    (f : ℕ → ℕ) (m x y : ℕ) (b : ℕ → ℕ) (i : ℕ)
    → x + m ≤ 80
    → y ≤ 25
    → each_column f m x y b i ≡ (
        if leb x (i % 80) && ltb (i % 80) (x + m) && leb y (i / 80) && ltb (i / 80) 25
        then f (b i)
        else b i)
unfolding each_column
each_column_lem f zero x y b i h k = ground arith
each_column_lem f (suc m) x y b i h k =
    each_column_lem f m (x + 1) y (each_row f (25 - y) x y b) i (omega arith) k
    ∙ ground (arith, each_row_lem f (25 - y) x y b i (omega arith) (omega arith))

pub fill_row_lem :
    (n x y entry : ℕ) (b : ℕ → ℕ) (i : ℕ)
    → x + n ≤ 80
    → y < 25
    → fill_row n x y entry b i
      ≡ (if leb x (i % 80) && ltb (i % 80) (x + n) && (i / 80 == y) then entry else b i)
unfolding fill_row
fill_row_lem zero x y entry b i h k = ground arith
fill_row_lem (suc n) x y entry b i h k =
    fill_row_lem n (x + 1) y entry (write b (place x y) entry) i (omega arith) k
    ∙ ground (arith, place_test x y i (omega arith) k)

-- The value of a cell after one row has moved up.
abbrev moved : ℕ → (ℕ → ℕ) → ℕ → ℕ
moved color b i = if ltb (i / 80) 24 then b (i + 80) else tty_make_entry 32 color

scroll_row_lem :
    (color n x y : ℕ) (b : ℕ → ℕ) (i : ℕ)
    → x + n ≤ 80
    → y < 25
    → scroll_row color n x y b i
      ≡ (if leb x (i % 80) && ltb (i % 80) (x + n) && (i / 80 == y) then moved color b i else b i)
unfolding scroll_row
scroll_row_lem color zero x y b i h k = ground arith
scroll_row_lem color (suc n) x y b i h k =
    let entry = if ltb y 24 then b (place x (y + 1)) else tty_make_entry 32 color in
    scroll_row_lem color n (x + 1) y (write b (place x y) entry) i (omega arith) k
    ∙ ground (arith, place_test x y i (omega arith) k, place_test x y (i + 80) (omega arith) k)

pub scroll_rows_lem :
    (color m y : ℕ) (b : ℕ → ℕ) (i : ℕ)
    → y + m ≤ 25
    → scroll_rows color m y b i
      ≡ (if leb y (i / 80) && ltb (i / 80) (y + m) then moved color b i else b i)
unfolding scroll_rows
scroll_rows_lem color zero y b i k = ground arith
scroll_rows_lem color (suc m) y b i k =
    scroll_rows_lem color m (y + 1) (scroll_row color 80 0 y b) i (omega arith)
    ∙ ground (
      arith,
      scroll_row_lem color 80 0 y b i (omega arith) (omega arith),
      scroll_row_lem color 80 0 y b (i + 80) (omega arith) (omega arith),
    )

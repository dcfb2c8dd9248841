-- ===== src/Mem/Paging/Tables.antt =====
-- `get_page`: kernel/src/mem/paging.c.
use ogos.Prelude.{ℕ, ◌/◌, ◌%◌, ◌≡◌, ◌≢◌, refl, arith, true, false, ◌==◌, bit_or}
use ogos.Mem.Heap.{ok}
use ogos.Mem.Kmalloc.{Kmem, Given, kmalloc_int}
use ogos.Mem.Paging.{Paging, done, put, blank_page, blank_table, enter_table, frame_of, get_page}

pub put-same {ℓ} : {A : Type ℓ} → (f : ℕ → A) (i : ℕ) (v : A) → put f i v i ≡ v
put-same f i v = let e : (i == i) ≡ true = ground arith in rw e refl

pub put-other {ℓ} : {A : Type ℓ} → (f : ℕ → A) (i : ℕ) (v : A) (j : ℕ) → i ≢ j → put f i v j ≡ f j
put-other f i v j h = let e : (i == j) ≡ false = ground arith in rw e refl

-- the index of the table that has the page of an address
abbrev pub table_of : ℕ → ℕ
table_of address = address / 0x1000 / 1024

abbrev pub page_of : ℕ → ℕ
page_of address = address / 0x1000 % 1024

-- A page whose table is there is found in it, and nothing changes.
pub get_page-found :
    (fuel address make dir : ℕ) (s : Paging)
    → (s.directories dir).tables (table_of address) ≢ 0
    → get_page fuel address make dir s
      ≡ done (((s.directories dir).tables (table_of address), page_of address), s)
unfolding get_page
get_page-found fuel address make dir s h =
    let e : ((s.directories dir).tables (table_of address) == 0) ≡ false = ground arith in rw e refl

-- What making a table for an address leaves.
pub record Made (address dir table physical : ℕ) (s s' : Paging) : Type 0 where
  pub entered : (s'.directories dir).tables (table_of address) ≡ table
  pub entered_physical : (s'.directories dir).tables_physical (table_of address) ≡ bit_or physical 7
  pub blank : (i : ℕ) → s'.tables table i ≡ blank_page
  pub other_entries :
      (i : ℕ) → table_of address ≢ i → (s'.directories dir).tables i ≡ (s.directories dir).tables i
  pub other_directories : (d : ℕ) → dir ≢ d → s'.directories d ≡ s.directories d
  pub other_tables : (t : ℕ) → table ≢ t → s'.tables t ≡ s.tables t
  pub frames : s'.frames ≡ s.frames
  pub found :
      (fuel other make : ℕ)
      → table_of other ≡ table_of address
      → get_page fuel other make dir s' ≡ done ((table, page_of other), s')

module _ (fuel address make dir : ℕ) (s : Paging) (given : Given) (kmem : Kmem)
    (absent : (s.directories dir).tables (table_of address) ≡ 0) (some_memory : given.addr ≢ 0)
    (run : kmalloc_int (frame_of s) fuel 0x1000 1 s.kmem ≡ ok (given, kmem)) where
  abbrev made : Paging
  made =
      enter_table dir (table_of address) given.addr (bit_or given.phys 7)
        (blank_table given.addr (record s { kmem = kmem }))

-- ===== src/Mem/Paging.antt =====
-- Page directories and page tables: kernel/src/mem/paging.c. Tables and directories are reached by their
-- addresses; physical memory, which only `clone_table` copies, holds a byte at each physical address.
pub mod Tables
pub mod Counts
pub mod Cloned
pub mod Copied
pub mod Clones
pub mod Shared
pub mod Directories
use ogos.Prelude.{
  ℕ, zero, suc, ◌+◌, ◌-◌, ◌*◌, ◌/◌, ◌%◌, ◌^◌, bit_or, Bool, true, false, ◌&&◌, ◌||◌, not, Option,
  none, some, ltb, leb, ◌==◌, if◌then◌else◌,
}
use ogos.Prelude.Words.{add32, sub32, mul32}
use ogos.Mem.Frames.{Frames, Page, set_frame, alloc_frame}
use ogos.Mem.Heap.{Outcome, ok, panic, out_of_fuel}
use ogos.Mem.Kmalloc.{Kmem, Given, kmalloc_int}

abbrev pub Table : Type 0
Table = ℕ → Page

-- `page_directory_t`; address 0 is no table
pub record Directory : Type 0 where
  pub tables : ℕ → ℕ
  pub tables_physical : ℕ → ℕ
  pub physical_addr : ℕ

-- `cr3` and `paging_on` are what `switch_page_directory` loads into the processor.
pub record Paging : Type 0 where
  pub frames : Frames
  pub kmem : Kmem
  pub tables : ℕ → Table
  pub directories : ℕ → Directory
  pub kernel_directory : ℕ
  pub current_directory : ℕ
  pub physical : ℕ → ℕ
  pub memsize : ℕ
  pub cr3 : ℕ
  pub paging_on : Bool

-- What an operation comes to. Without a free frame `first_frame` ends without a `return`: `no_frame`. The heap
-- can fail an assertion: `panicked`.
pub data Paged {ℓ} (A : Type ℓ) : Type ℓ where
  done : A → Paged A
  no_frame : Paged A
  panicked : Paged A
  no_fuel : Paged A

infixl 5 ◌>>=◌
abbrev pub ◌>>=◌ {ℓ κ} : {A : Type ℓ} {B : Type κ} → Paged A → (A → Paged B) → Paged B
done a >>= f = f a
no_frame >>= f = no_frame
panicked >>= f = panicked
no_fuel >>= f = no_fuel

abbrev pub of_heap {ℓ} : {A : Type ℓ} → Outcome A → Paged A
of_heap (ok a) = done a
of_heap panic = panicked
of_heap out_of_fuel = no_fuel

abbrev pub of_frames {ℓ} : {A : Type ℓ} → Option A → Paged A
of_frames (some a) = done a
of_frames none = no_frame

abbrev pub blank_page : Page
blank_page = record { present = 0; rw = 0; user = 0; accessed = 0; dirty = 0; frame = 0 }

abbrev pub put {ℓ} : {A : Type ℓ} → (ℕ → A) → ℕ → A → ℕ → A
put f i v j = if i == j then v else f j

abbrev pub put_page : ℕ → ℕ → Page → Paging → Paging
put_page table i p s = record s { tables = put s.tables table (put (s.tables table) i p) }

-- the page that the kernel's directory has for an address; without its table the source reads a page at 0
abbrev pub frame_of : Paging → ℕ → ℕ
frame_of s addr =
    let page = addr / 0x1000 in
    let table = (s.directories s.kernel_directory).tables (page / 1024) in
    (s.tables table (if table == 0 then 0 else page % 1024)).frame

-- `kmalloc_ap(sz, &phys)`
pub kmalloc_ap : ℕ → ℕ → Paging → Paged (Given × Paging)
kmalloc_ap fuel sz s = do
  (given, kmem) ← of_heap (kmalloc_int (frame_of s) fuel sz 1 s.kmem)
  done (given, record s { kmem = kmem })

-- a table from the heap, all of whose pages are blank
abbrev pub blank_table : ℕ → Paging → Paging
blank_table table s = record s { tables = put s.tables table (λ i. blank_page) }

-- entry i of a directory: a table, and its physical address with the bits PRESENT, RW and US
abbrev pub enter_table : ℕ → ℕ → ℕ → ℕ → Paging → Paging
enter_table dir i table physical s =
    let d = s.directories dir in
    record s {
      directories = put s.directories dir (record d {
        tables = put d.tables i table;
        tables_physical = put d.tables_physical i physical;
      });
    }

-- The part of `get_page` that makes a table.
pub make_table : ℕ → ℕ → ℕ → Paging → Paged (ℕ × Paging)
make_table fuel dir table_idx s = do
  (given, s1) ← kmalloc_ap fuel 0x1000 s
  done (
    given.addr,
    enter_table dir table_idx given.addr (bit_or given.phys 7) (blank_table given.addr s1),
  )

-- A page is the address of its table and its index there; a null page is (0, 0).
pub get_page : ℕ → ℕ → ℕ → ℕ → Paging → Paged ((ℕ × ℕ) × Paging)
get_page fuel address make dir s =
    let page = address / 0x1000 in
    let table_idx = page / 1024 in
    let table = (s.directories dir).tables table_idx in
    if not (table == 0)
    then done ((table, page % 1024), s)
    else if not (make == 0)
    then (do (made, s1) ← make_table fuel dir table_idx s; done ((made, page % 1024), s1))
    else done ((0, 0), s)

pub switch_page_directory : ℕ → Paging → Paging
switch_page_directory dir s = record s {
  current_directory = dir;
  cr3 = (s.directories dir).physical_addr;
  paging_on = true;
}

-- the body of the loop of `pageMem`
page_mem_step : ℕ → ℕ → ℕ → Paging → Paged Paging
page_mem_step fuel location j s = do
  let taken =
      if ltb (add32 (add32 j location) 0x300000) s.memsize
      then record s { frames = set_frame s.frames j }
      else s
  ((table, i), s1) ← get_page fuel j 1 taken.kernel_directory taken
  done (
      put_page table i
        (record (s1.tables table i) { present = 1; rw = 1; user = 1; frame = j / 0x1000 % 2 ^ 20 })
        s1)

-- The loop runs once for each of the 768 pages, or not at all where its bound wraps around.
page_mem_from : ℕ → ℕ → ℕ → ℕ → Paging → Paged Paging
page_mem_from zero fuel location j s = no_fuel
page_mem_from (suc k) fuel location j s =
    let rest = page_mem_step fuel location j s >>= page_mem_from k fuel location (add32 j 0x1000) in
    if ltb j (add32 location 0x300000) then rest else done s

page_mem : ℕ → ℕ → Paging → Paged Paging
page_mem fuel location s = page_mem_from 769 fuel location location s

-- The flags that `clone_table` copies: each one that is set is set.
abbrev pub or_flag : ℕ → ℕ → ℕ
or_flag theirs ours = if theirs == 0 then ours else 1

abbrev pub copy_flags : Page → Page → Page
copy_flags from page = record page {
  present = or_flag from.present page.present;
  rw = or_flag from.rw page.rw;
  user = or_flag from.user page.user;
  accessed = or_flag from.accessed page.accessed;
  dirty = or_flag from.dirty page.dirty;
}

-- `copy_page_physical` of kernel/src/cpu/asm/process.asm: 1024 words
abbrev pub copy_page_physical : ℕ → ℕ → (ℕ → ℕ) → ℕ → ℕ
copy_page_physical from to m a =
    if leb to a && ltb a (to + 0x1000) then m (from + (a - to)) else m a

-- The body of the loop of `clone_table`.
pub clone_page : ℕ → ℕ → ℕ → Paging → Paged Paging
clone_page src table i s = if (s.tables src i).frame == 0 then done s else (do
  (fr, page) ← of_frames (alloc_frame s.frames (s.tables table i) 0 0)
  let from = s.tables src i
  let s1 = put_page table i (copy_flags from page) (record s { frames = fr })
  done (record s1 {
    physical = copy_page_physical (mul32 from.frame 0x1000) (mul32 page.frame 0x1000) s1.physical;
  }))

pub clone_pages : ℕ → ℕ → ℕ → ℕ → Paging → Paged Paging
clone_pages zero src table i s = done s
clone_pages (suc n) src table i s = clone_page src table i s >>= clone_pages n src table (i + 1)

pub clone_table : ℕ → ℕ → Paging → Paged (Given × Paging)
clone_table fuel src s = do
  (given, s1) ← kmalloc_ap fuel 0x1000 s
  s2 ← clone_pages 1024 src given.addr 0 (blank_table given.addr s1)
  done (given, s2)

-- The body of the loop of `clone_directory`: the kernel's tables are shared, the others copied.
pub clone_entry : ℕ → ℕ → ℕ → ℕ → Paging → Paged Paging
clone_entry fuel src dir i s =
    let table = (s.directories src).tables i in
    if table == 0
    then done s
    else if (s.directories s.kernel_directory).tables i == table
    then done (enter_table dir i table ((s.directories src).tables_physical i) s)
    else (do
      (given, s1) ← clone_table fuel table s
      done (enter_table dir i given.addr (bit_or given.phys 7) s1))

pub clone_entries : ℕ → ℕ → ℕ → ℕ → ℕ → Paging → Paged Paging
clone_entries zero fuel src dir i s = done s
clone_entries (suc n) fuel src dir i s =
    clone_entry fuel src dir i s >>= clone_entries n fuel src dir (i + 1)

abbrev pub blank_directory : ℕ → Directory
blank_directory phys = record {
  tables = λ i. 0;
  tables_physical = λ i. 0;
  physical_addr = add32 phys 0x1000;
}

-- A directory has 8196 bytes; `tablesPhysical` stands 4096 bytes behind its start.
pub clone_directory : ℕ → ℕ → Paging → Paged (ℕ × Paging)
clone_directory fuel src s = do
  (given, s1) ← kmalloc_ap fuel 8196 s
  s2 ←
      clone_entries 1024 fuel src given.addr 0
        (record s1 { directories = put s1.directories given.addr (blank_directory given.phys) })
  done (given.addr, s2)

-- ===== src/Mem/PagingTests.antt =====
-- Examples of the theorems on page tables and directories.
use ogos.Prelude.{ℕ, [], false, ◌==◌, if◌then◌else◌}
use ogos.Mem.Kmalloc.{Kmem, Given}
use ogos.Mem.Paging.{Paging, Table, blank_page, blank_table}
use ogos.Mem.Paging.Cloned.{Cloned}

-- no heap yet
abbrev kmem : ℕ → ℕ → Kmem
kmem placement_address usage = record {
  placement_address = placement_address;
  has_heap = false;
  heap = record {
    memory = λ a. 0;
    index = record { array = λ i. 0; size = 0; max_size = 0 };
    start_address = 0;
    end_address = 0;
    max_address = 0;
    supervisor = 0;
    readonly = 0;
    phys_mem_usage = usage;
    calls = [];
  };
}

-- the table at 0x5000: two pages with the frames 1 and 2
abbrev source : Table
source j =
    if j == 0
    then record blank_page { present = 1; frame = 1 }
    else if j == 5
    then record blank_page { present = 1; rw = 1; frame = 2 }
    else blank_page

-- the kernel's directory at 0x3000, with that table as its entry 1
abbrev paging : Paging
paging = record {
  frames = record { words = λ i. if i == 0 then 7 else 0; nframes = 2048 };
  kmem = kmem 0x7100 0;
  tables = λ t. if t == 0x5000 then source else λ j. blank_page;
  directories = λ d. record {
    tables = λ i. if i == 1 then 0x5000 else 0;
    tables_physical = λ i. if i == 1 then 0x5007 else 0;
    physical_addr = 0x4000;
  };
  kernel_directory = 0x3000;
  current_directory = 0x3000;
  physical = λ a. a;
  memsize = 0x800000;
  cr3 = 0;
  paging_on = false;
}

abbrev given : Given
given = record { addr = 0x8000; phys = 0x8000 }

abbrev blank : Paging
blank = blank_table 0x8000 (record paging { kmem = kmem 0x9000 0x1000 })

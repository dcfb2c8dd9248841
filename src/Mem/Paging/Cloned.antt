-- ===== src/Mem/Paging/Cloned.antt =====
-- What a copy of a page table has, and what it needs: `clone_table` of kernel/src/mem/paging.c.
use ogos.Prelude.{ℕ, ◌+◌, ◌*◌, ◌^◌, ◌<◌, ◌≤◌, ◌≡◌, ◌≢◌, ◌⊎◌}
use ogos.Mem.Frames.{Page}
use ogos.Mem.Frames.Bitmap.{used}
use ogos.Mem.Paging.{Paging, blank_page, or_flag}
use ogos.Mem.Paging.Counts.{free_frames}

-- byte k of frame f
abbrev pub byte_of : Paging → ℕ → ℕ → ℕ
byte_of s f k = s.physical (f * 0x1000 + k)

-- What a page that was copied has: a frame that was free, with the bytes of the other one. It is present and
-- open to the user whatever the other one is.
pub record Copied (s s' : Paging) (from page : Page) : Type 0 where
  pub was_free : used s.frames page.frame ≡ 0
  pub marked : used s'.frames page.frame ≡ 1
  pub flags : page ≡ record {
    present = 1;
    rw = or_flag from.rw 0;
    user = 1;
    accessed = or_flag from.accessed 0;
    dirty = or_flag from.dirty 0;
    frame = page.frame;
  }
  pub bytes : (k : ℕ) → k < 0x1000 → byte_of s' page.frame k ≡ byte_of s from.frame k

-- The pages i .. i + n - 1 of a table after the copying, and all that it leaves alone.
pub record Cloned (n i src table : ℕ) (s s' : Paging) : Type 0 where
  pub copied :
      (j : ℕ)
      → i ≤ j
      → j < i + n
      → (s.tables src j).frame ≢ 0
      → Copied s s' (s.tables src j) (s'.tables table j)
  pub skipped :
      (j : ℕ)
      → i ≤ j
      → j < i + n
      → (s.tables src j).frame ≡ 0
      → s'.tables table j ≡ s.tables table j
  pub apart :
      (j k : ℕ)
      → i ≤ j
      → j < k
      → k < i + n
      → (s.tables src j).frame ≢ 0
      → (s.tables src k).frame ≢ 0
      → (s'.tables table j).frame ≢ (s'.tables table k).frame
  pub outside : (j : ℕ) → (j < i) ⊎ (i + n ≤ j) → s'.tables table j ≡ s.tables table j
  pub others : (t : ℕ) → t ≢ table → s'.tables t ≡ s.tables t
  pub used_kept : (f : ℕ) → used s.frames f ≡ 1 → used s'.frames f ≡ 1
  pub bytes_kept : (f k : ℕ) → used s.frames f ≡ 1 → k < 0x1000 → byte_of s' f k ≡ byte_of s f k

-- What the copying of n pages from page i on needs: the frames of the other table are marked used, the new
-- table is blank from there on, and n frames are free.
pub record Clonable (n i src table : ℕ) (s : Paging) : Type 0 where
  pub small : s.frames.nframes ≤ 2 ^ 20
  pub distinct : src ≢ table
  pub whole : (j : ℕ) → (s.tables src j).frame < 2 ^ 20
  pub in_use : (j : ℕ) → (s.tables src j).frame ≢ 0 → used s.frames (s.tables src j).frame ≡ 1
  pub bare : (j : ℕ) → i ≤ j → s.tables table j ≡ blank_page
  pub room : n ≤ free_frames s.frames

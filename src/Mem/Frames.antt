-- ===== src/Mem/Frames.antt =====
-- The bitmap of physical frames and its use by pages: kernel/src/mem/paging.c.
-- Bit `f % 32` of word `f / 32` is set if frame f is in use.
pub mod Bitmap
pub mod Search
pub mod Alloc
use ogos.Prelude.{
  ℕ, zero, suc, ◌+◌, ◌-◌, ◌*◌, ◌/◌, ◌%◌, ◌^◌, bit_and, bit_or, Option, none, some, Bool, true,
  false, ◌==◌, if◌then◌else◌,
}
use ogos.Prelude.Bits.{complement}
use ogos.Prelude.Words.{mul32}

-- `frames` and `nframes`. The array is read and written by word index.
pub record Frames : Type 0 where
  pub words : ℕ → ℕ
  pub nframes : ℕ

-- `page_t`; a flag of one bit is 0 or 1.
pub record Page : Type 0 where
  pub present : ℕ
  pub rw : ℕ
  pub user : ℕ
  pub accessed : ℕ
  pub dirty : ℕ
  pub frame : ℕ

abbrev pub index_from_bit : ℕ → ℕ
index_from_bit a = a / 32

abbrev pub offset_from_bit : ℕ → ℕ
offset_from_bit a = a % 32

abbrev pub write_word : (ℕ → ℕ) → ℕ → ℕ → ℕ → ℕ
write_word words i v j = if i == j then v else words j

pub set_frame : Frames → ℕ → Frames
set_frame fr frame_addr =
    let frame = frame_addr / 0x1000 in
    let idx = index_from_bit frame in
    let off = offset_from_bit frame in
    record fr { words = write_word fr.words idx (bit_or (fr.words idx) (2 ^ off)) }

pub clear_frame : Frames → ℕ → Frames
clear_frame fr frame_addr =
    let frame = frame_addr / 0x1000 in
    let idx = index_from_bit frame in
    let off = offset_from_bit frame in
    record fr { words = write_word fr.words idx (bit_and (fr.words idx) (complement 32 (2 ^ off))) }

pub test_frame : Frames → ℕ → ℕ
test_frame fr frame_addr =
    let frame = frame_addr / 0x1000 in
    bit_and (fr.words (index_from_bit frame)) (2 ^ offset_from_bit frame)

-- The inner loop of `first_frame`, from bit j on, with n bits to go.
pub first_bit : ℕ → ℕ → ℕ → Option ℕ
first_bit zero j word = none
first_bit (suc n) j word =
    let rest = first_bit n (j + 1) word in if bit_and word (2 ^ j) == 0 then some j else rest

-- The outer loop, from word i on, with n words to go. `none` is the end of the function, where
-- the source has no `return`.
pub first_word : ℕ → ℕ → Frames → Option ℕ
first_word zero i fr = none
first_word (suc n) i fr =
    let rest = first_word n (i + 1) fr in
    if fr.words i == 0xFFFF_FFFF
    then rest
    else elim (first_bit 32 0 (fr.words i)) [ some j ↦ some (i * 4 * 8 + j) | none ↦ rest ]

pub first_frame : Frames → Option ℕ
first_frame fr = first_word (index_from_bit fr.nframes) 0 fr

-- A page that has a frame keeps it. With no free frame the source goes on with what an
-- unfinished `first_frame` left behind: there the model has no result.
pub alloc_frame : Frames → Page → ℕ → ℕ → Option (Frames × Page)
alloc_frame fr page is_kernel is_writeable =
    if page.frame == 0
    then elim (first_frame fr) [
      | none ↦ none
      | some idx ↦ some (
        set_frame fr (mul32 idx 0x1000),
        record page {
          present = 1;
          rw = if is_writeable == 1 then 1 else 0;
          user = if is_kernel == 1 then 0 else 1;
          frame = idx % 2 ^ 20;
        },
      )
    ]
    else some (fr, page)

pub free_frame : Frames → Page → Frames × Page
free_frame fr page =
    if page.frame == 0 then (fr, page) else (clear_frame fr page.frame, record page { frame = 0 })

-- ===== src/Mem/Tests.antt =====
-- Examples of the theorems on memory management.
use mathlib.Core.List.{Perm}
use ogos.Prelude.{ℕ, ◌+◌, ◌*◌, ◌≡◌, refl, Bool, [], ◌∷◌, arith, ◌==◌, if◌then◌else◌, ltb}
use ogos.Mem.Frames.{Frames, Page, free_frame}
use ogos.Mem.Frames.Bitmap.{used}
use ogos.Mem.Frames.Alloc.{Result, alloc_frame_lem, free_frame_leaks}
use ogos.Mem.OrderedArray.{OrderedArray, insert_ordered_array}
use ogos.Mem.OrderedArray.Contents.{contents}
use ogos.Mem.OrderedArray.Insert.{Sorted, insert-sorts}

-- 64 frames, the first three of them in use
abbrev frames : Frames
frames = record { words = λ i. if i == 0 then 7 else 0; nframes = 64 }

abbrev page : ℕ → Page
page frame = record { present = 0; rw = 0; user = 0; accessed = 0; dirty = 0; frame = frame }

alloc_frame_lem_example : Result frames (page 0) 0 1 (omega arith) refl
alloc_frame_lem_example =
    alloc_frame_lem frames (page 0) 0 1 (omega arith) refl 5 (omega arith) refl

free_frame_leaks_example :
    (used (free_frame frames (page 2)).0 2 ≡ 1)
    × (used (free_frame frames (page 2)).0 0 ≡ 0)
    × ((free_frame frames (page 2)).1.frame ≡ 0)
free_frame_leaks_example = free_frame_leaks frames (page 2) (omega arith) refl

-- the items 10, 20, 30
abbrev array : OrderedArray
array = record { array = λ i. (i + 1) * 10; size = 3; max_size = 8 }

abbrev less : ℕ → ℕ → Bool
less x y = ltb x y

insert-sorts_example :
    (contents (insert_ordered_array less 15 array) ≡ 10 ∷ 15 ∷ 20 ∷ 30 ∷ [])
    × Sorted less (contents (insert_ordered_array less 15 array))
    × Perm (contents (insert_ordered_array less 15 array)) (15 ∷ 10 ∷ 20 ∷ 30 ∷ [])
insert-sorts_example =
    insert-sorts less 15 array (λ x y h. ground arith) (omega arith) (refl, (refl, tt))

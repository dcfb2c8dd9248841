-- ===== src/Mem/OrderedArray.antt =====
-- The ordered array of pointers that indexes the holes of the heap: kernel/src/mem/ordered_array.c.
-- The array is read and written by index, also past `size`, as the source does; the header of each
-- item is reached through the item itself.
pub mod Contents
pub mod Insert
pub mod Remove
pub mod Counts
use ogos.Prelude.{
  ℕ, zero, suc, ◌+◌, ◌-◌, ◌≤◌, ◌<◌, ◌%◌, ◌^◌, Option, none, some, Bool, true, ◌&&◌, ltb, ◌==◌,
  if◌then◌else◌,
}
use ogos.Prelude.Words.{add32, sub32}

-- `ordered_array_t`, but for the predicate, which the operations take. `array i` is the item at
-- index i of the memory that the array was placed on.
pub record OrderedArray : Type 0 where
  pub array : ℕ → ℕ
  pub size : ℕ
  pub max_size : ℕ

abbrev pub write : (ℕ → ℕ) → ℕ → ℕ → ℕ → ℕ
write array i v j = if i == j then v else array j

pub standard_lessthan_predicate : ℕ → ℕ → Bool
standard_lessthan_predicate a b = ltb a b

-- The items that `memset` clears stand below `max_size`.
unfoldable pub place_ordered_array : (ℕ → ℕ) → ℕ → OrderedArray
place_ordered_array addr max_size = record {
  array = λ i. if ltb i max_size then 0 else addr i;
  size = 0;
  max_size = max_size;
}

-- `while (iterator < size && less_than(array[iterator], item)) iterator++;` with n indices to go.
pub find_place : (ℕ → ℕ → Bool) → ℕ → ℕ → ℕ → (ℕ → ℕ) → ℕ
find_place less_than item zero iterator array = iterator
find_place less_than item (suc n) iterator array =
    let rest = find_place less_than item n (iterator + 1) array in
    if less_than (array iterator) item then rest else iterator

-- `while (iterator < size) { iterator++; tmp2 = array[iterator]; array[iterator] = tmp; tmp = tmp2; }`
pub shift_up : ℕ → ℕ → ℕ → (ℕ → ℕ) → ℕ → ℕ
shift_up zero iterator tmp array = array
shift_up (suc n) iterator tmp array =
    shift_up n (iterator + 1) (array (iterator + 1)) (write array (iterator + 1) tmp)

pub insert_ordered_array : (ℕ → ℕ → Bool) → ℕ → OrderedArray → OrderedArray
insert_ordered_array less_than item a =
    let iterator = find_place less_than item a.size 0 a.array in
    if iterator == a.size
    then record a { array = write a.array a.size item; size = add32 a.size 1 }
    else record a {
      array =
          shift_up (a.size - iterator) iterator (a.array iterator) (write a.array iterator item);
      size = add32 a.size 1;
    }

-- `none` is the failure of `ASSERT(i < array->size)`.
unfoldable pub lookup_ordered_array : ℕ → OrderedArray → Option ℕ
lookup_ordered_array i a = if ltb i a.size then some (a.array i) else none

-- `while (i < size) { array[i] = array[i+1]; i++; }` with n indices to go.
pub shift_down : ℕ → ℕ → (ℕ → ℕ) → ℕ → ℕ
shift_down zero i array = array
shift_down (suc n) i array = shift_down n (i + 1) (write array i (array (i + 1)))

-- The magic number of the header that item i points to is cleared first; `magic` is the magic
-- number at each header's address.
unfoldable pub remove_ordered_array : ℕ → OrderedArray → (ℕ → ℕ) → OrderedArray × (ℕ → ℕ)
remove_ordered_array i a magic = (
  record a { array = shift_down (a.size - i) i a.array; size = sub32 a.size 1 },
  write magic (a.array i) 0,
)

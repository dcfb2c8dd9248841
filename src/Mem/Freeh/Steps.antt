-- ===== src/Mem/Freeh/Steps.antt =====
-- The steps of `freeh`, each on the memory that it meets.
use ogos.Prelude.{ℕ, ◌+◌, ◌≡◌, refl, ◌==◌, ◌&&◌, if◌then◌else◌, Bool, true, false}
use ogos.Prelude.Words.{add32, sub32}
use ogos.Mem.Heap.{
  Heap, ok, store32, store8, heap_magic, magic_of, is_hole_of, size_of, header_of, set_size,
}
use ogos.Mem.Freeh.{Freed, unify_left, unify_right, added, release}

skipped : (b : Bool) (x y : Freed) → (if b && false then x else y) ≡ y
skipped true x y = refl
skipped false x y = refl

pub unify_left_block :
    (f : Freed) (test_footer left : ℕ)
    → sub32 f.header 8 ≡ test_footer
    → header_of f.heap.memory test_footer ≡ left
    → is_hole_of f.heap.memory left ≡ 0
    → unify_left f ≡ f
unfolding unify_left
unify_left_block f test_footer left at header block =
    rw (at, header, block) (skipped (magic_of f.heap.memory test_footer == heap_magic) _ f)

pub unify_left_hole :
    (f : Freed) (test_footer left size : ℕ)
    → sub32 f.header 8 ≡ test_footer
    → magic_of f.heap.memory test_footer ≡ heap_magic
    → header_of f.heap.memory test_footer ≡ left
    → is_hole_of f.heap.memory left ≡ 1
    → let m1 = store32 f.heap.memory (f.footer + 4) left in
      add32 (size_of m1 left) (size_of f.heap.memory f.header) ≡ size
      → unify_left f ≡ record {
        header = left;
        footer = f.footer;
        do_add = false;
        heap = record f.heap {
          memory = set_size left size (store32 f.heap.memory (f.footer + 4) left);
        };
      }
unfolding unify_left
unify_left_hole f test_footer left size at magic header hole sum =
    rw (at, magic, header, hole, sum) refl

pub unify_right_block :
    (f : Freed) (test_header : ℕ)
    → add32 f.footer 8 ≡ test_header
    → is_hole_of f.heap.memory test_header ≡ 0
    → unify_right f ≡ f
unfolding unify_right
unify_right_block f test_header at block =
    rw (at, block) (skipped (magic_of f.heap.memory test_header == heap_magic) _ f)

pub release_run :
    (fuel header size footer : ℕ) (h : Heap) (f1 : Freed)
    → size_of h.memory header ≡ size
    → magic_of h.memory header ≡ heap_magic
    → sub32 (add32 header size) 8 ≡ footer
    → magic_of h.memory footer ≡ heap_magic
    → unify_left (record {
      header = header;
      footer = footer;
      do_add = true;
      heap = record h {
        memory = store8 h.memory (header + 4) 1;
        phys_mem_usage = sub32 h.phys_mem_usage size;
      };
    })
      ≡ f1
    → unify_right f1 ≡ f1
    → (add32 f1.footer 8 == h.end_address) ≡ false
    → release fuel header h ≡ ok (added f1)
unfolding release
release_run fuel header size footer h f1 size_is magic at footer_magic left right more =
    rw (size_is, magic, at, footer_magic, left, right, more) refl

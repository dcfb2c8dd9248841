-- ===== src/Mem/Paging/Copied.antt =====
-- One page of `clone_table`: kernel/src/mem/paging.c.
use ogos.Prelude.{
  ℕ, suc, ◌+◌, ◌-◌, ◌*◌, ◌/◌, ◌^◌, ◌<◌, ◌≡◌, ◌≢◌, ◌∙◌, refl, sym, ap, arith, Bool-cases, true,
  false, ◌==◌, ltb, if◌then◌else◌, inl, inr, leb,
}
use ogos.Prelude.Words.{mul32}
use ogos.Mem.Frames.{Frames, Page}
use ogos.Mem.Frames.Bitmap.{used}
use ogos.Mem.Frames.Alloc.{Allocated, alloc_frame_lem}
use ogos.Mem.Paging.{Paging, done, put_page, copy_flags, or_flag, copy_page_physical, clone_page}
use ogos.Mem.Paging.Counts.{free_count-found, free_count-taken}
use ogos.Mem.Paging.Cloned.{byte_of, Copied, Cloned, Clonable}

-- The copy of one frame to another, byte by byte.
copy_page_physical_lem :
    (from to : ℕ) (m : ℕ → ℕ) (f k : ℕ)
    → k < 0x1000
    → copy_page_physical (from * 0x1000) (to * 0x1000) m (f * 0x1000 + k)
      ≡ (if to == f then m (from * 0x1000 + k) else m (f * 0x1000 + k))
copy_page_physical_lem from to m f k h = elim (Bool-cases (to == f)) [
  | inl e ↦
      let same : to ≡ f = ground arith in
      let d : f * 0x1000 + k - to * 0x1000 ≡ k = omega arith in
      let lo : leb (to * 0x1000) (f * 0x1000 + k) ≡ true = ground arith in
      let hi : ltb (f * 0x1000 + k) (to * 0x1000 + 0x1000) ≡ true = ground arith in
      rw (e, lo, hi, d) refl
  | inr e ↦ rw e (ground arith)
]

mul32-page : (f : ℕ) → f < 2 ^ 20 → mul32 f 0x1000 ≡ f * 0x1000
mul32-page f h = omega arith

or_flag-set : (flag : ℕ) → or_flag flag 1 ≡ 1
or_flag-set flag = ground arith

module _ (n i src table : ℕ) (s : Paging) (c : Clonable (suc n) i src table s) where
  abbrev pub Step : Type 0
  Step =
      (s1 : Paging) × (clone_page src table i s ≡ done s1)
      × Cloned 1 i src table s s1
      × Clonable n (i + 1) src table s1

  skip : (s.tables src i).frame ≡ 0 → Step
  unfolding clone_page
  skip e = (
    s,
    rw e refl,
    record {
      copied = λ j p q h. absurd (h (let d : j ≡ i = omega arith in rw d e));
      skipped = λ j p q h. refl;
      apart = λ j k p q r. absurd (omega arith);
      outside = λ j h. refl;
      others = λ t h. refl;
      used_kept = λ f h. h;
      bytes_kept = λ f k h p. refl;
    },
    record {
      small = c.small;
      distinct = c.distinct;
      whole = c.whole;
      in_use = c.in_use;
      bare = λ j p. c.bare j (omega arith);
      room = omega (arith, c.room);
    },
  )

  -- `s` once page i has been copied, where `alloc_frame` returned `fr` and `page`
  abbrev copied_page : Page → Page
  copied_page page = copy_flags (s.tables src i) page

  abbrev after : Frames → Page → Paging
  after fr page =
      let s1 = put_page table i (copied_page page) (record s { frames = fr }) in
      record s1 {
        physical =
            copy_page_physical (mul32 (s.tables src i).frame 0x1000) (mul32 page.frame 0x1000)
              s.physical;
      }

  module _ (fr : Frames) (page : Page) (a : Allocated s.frames (s.tables table i) 0 0 fr page)
      (framed : (s.tables src i).frame ≢ 0) where
    at_other : (t : ℕ) → t ≢ table → (after fr page).tables t ≡ s.tables t
    at_other t h = let e : (table == t) ≡ false = ground arith in rw e refl

    at_i : (after fr page).tables table i ≡ copied_page page
    at_i =
        let e : (table == table) ≡ true = ground arith in
        let e' : (i == i) ≡ true = ground arith in rw (e, e') refl

    elsewhere : (j : ℕ) → j ≢ i → (after fr page).tables table j ≡ s.tables table j
    elsewhere j h =
        let e : (table == table) ≡ true = ground arith in
        let e' : (i == j) ≡ false = ground arith in rw (e, e') refl

    in_memory : page.frame < 2 ^ 20
    in_memory = omega (arith, a.in_range, c.small)

    bytes_after :
        (f k : ℕ)
        → k < 0x1000
        → byte_of (after fr page) f k
          ≡ (if page.frame == f then byte_of s (s.tables src i).frame k else byte_of s f k)
    bytes_after f k h =
        rw (mul32-page _ (c.whole i), mul32-page _ in_memory)
          (copy_page_physical_lem (s.tables src i).frame page.frame s.physical f k h)

    flags_after : copied_page page ≡ record {
      present = 1;
      rw = or_flag (s.tables src i).rw 0;
      user = 1;
      accessed = or_flag (s.tables src i).accessed 0;
      dirty = or_flag (s.tables src i).dirty 0;
      frame = page.frame;
    }
    flags_after =
        let bare = c.bare i (omega arith) in
        let present : page.present ≡ 1 = ap (λ p. p.present) a.flags in
        let written : page.rw ≡ 0 = ap (λ p. p.rw) a.flags in
        let user : page.user ≡ 1 = ap (λ p. p.user) a.flags in
        let accessed : page.accessed ≡ 0 =
          ap (λ p. p.accessed) a.flags ∙ ap (λ p. p.accessed) bare in
        let dirty : page.dirty ≡ 0 = ap (λ p. p.dirty) a.flags ∙ ap (λ p. p.dirty) bare in
        rw
          (
            present,
            written,
            user,
            accessed,
            dirty,
            or_flag-set (s.tables src i).present,
            or_flag-set (s.tables src i).user,
          )
          refl

    marked_after : (f : ℕ) → used s.frames f ≡ 1 → used fr f ≡ 1
    marked_after f h = rw (a.marked f) (ground arith)

    after-Copied : Copied s (after fr page) (s.tables src i) (copied_page page)
    after-Copied = record {
      was_free = a.was_free;
      marked = rw (a.marked page.frame) (ground arith);
      flags = flags_after;
      bytes = λ k h. bytes_after page.frame k h ∙ ground arith;
    }

    after-Cloned : Cloned 1 i src table s (after fr page)
    after-Cloned = record {
      copied = λ j p q h. let d : j ≡ i = omega arith in rw d (rw at_i after-Copied);
      skipped = λ j p q h. let d : j ≡ i = omega arith in absurd (framed (rw (sym d) h));
      apart = λ j k p q r. absurd (omega arith);
      outside = λ j h. elsewhere j (ground arith);
      others = at_other;
      used_kept = marked_after;
      bytes_kept = λ f k h p. bytes_after f k p ∙ ground (arith, a.was_free);
    }

    after-Clonable : Clonable n (i + 1) src table (after fr page)
    after-Clonable =
        let same = at_other src c.distinct in
        record {
          small = rw a.nframes c.small;
          distinct = c.distinct;
          whole = λ j. rw same (c.whole j);
          in_use = λ j. rw same (λ h. marked_after (s.tables src j).frame (c.in_use j h));
          bare = λ j p. rw (elsewhere j (ground arith)) (c.bare j (omega arith));
          room = rw a.nframes (
              omega (
                arith,
                c.room,
                free_count-taken (s.frames.nframes / 32 * 32) page.frame (used s.frames) (used fr)
                    a.marked,
              ));
        }

  take : (s.tables src i).frame ≢ 0 → Step
  unfolding clone_page
  take framed =
      let e : ((s.tables src i).frame == 0) ≡ false = ground arith in
      let none_yet : (s.tables table i).frame ≡ 0 = ap (λ p. p.frame) (c.bare i (omega arith)) in
      let (g, lt, free) =
        free_count-found (s.frames.nframes / 32 * 32) (used s.frames) (omega (arith, c.room)) in
      let ((fr, page), found, a) =
        alloc_frame_lem s.frames (s.tables table i) 0 0 c.small none_yet g lt free in
      (
        after fr page,
        rw (e, found) refl,
        after-Cloned fr page a framed,
        after-Clonable fr page a framed,
      )

  pub clone_page-Cloned : Step
  clone_page-Cloned = elim (Bool-cases ((s.tables src i).frame == 0)) [
    | inl e ↦ skip (ground arith)
    | inr e ↦ take (ground arith)
  ]

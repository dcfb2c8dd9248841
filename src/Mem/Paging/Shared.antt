-- ===== src/Mem/Paging/Shared.antt =====
-- The loop of `clone_directory` on a directory whose tables are the kernel's: kernel/src/mem/paging.c.
use ogos.Prelude.{
  ℕ, zero, suc, ◌+◌, ◌<◌, ◌≤◌, ◌≡◌, ◌≢◌, ◌∙◌, refl, ap, arith, Bool-cases, true, false, ◌==◌,
  if◌then◌else◌, inl, inr, ◌⊎◌,
}
use ogos.Mem.Paging.{Paging, done, put, enter_table, clone_entry, clone_entries}
use ogos.Mem.Paging.Tables.{put-same, put-other}

-- Entries i .. i + n - 1 of a directory are those of another one where that has a table; nothing else changes.
pub record Shared (n i src dir : ℕ) (s s' : Paging) : Type 0 where
  pub tables :
      (j : ℕ)
      → i ≤ j
      → j < i + n
      → (s'.directories dir).tables j ≡ (
          if (s.directories src).tables j == 0
          then (s.directories dir).tables j
          else (s.directories src).tables j)
  pub physical :
      (j : ℕ)
      → i ≤ j
      → j < i + n
      → (s'.directories dir).tables_physical j ≡ (
          if (s.directories src).tables j == 0
          then (s.directories dir).tables_physical j
          else (s.directories src).tables_physical j)
  pub outside :
      (j : ℕ)
      → (j < i) ⊎ (i + n ≤ j)
      → ((s'.directories dir).tables j ≡ (s.directories dir).tables j)
        × ((s'.directories dir).tables_physical j ≡ (s.directories dir).tables_physical j)
  pub others : (d : ℕ) → dir ≢ d → s'.directories d ≡ s.directories d
  pub address : (s'.directories dir).physical_addr ≡ (s.directories dir).physical_addr
  pub kernel : s'.kernel_directory ≡ s.kernel_directory
  pub pages : s'.tables ≡ s.tables
  pub frames : s'.frames ≡ s.frames

-- Each table is missing or the kernel's, and the new directory is neither of the two.
pub record Sharable (src dir : ℕ) (s : Paging) : Type 0 where
  pub not_src : dir ≢ src
  pub not_kernel : dir ≢ s.kernel_directory
  pub of_kernel :
      (j : ℕ)
      → ((s.directories src).tables j ≡ 0)
        ⊎ ((s.directories s.kernel_directory).tables j ≡ (s.directories src).tables j)

Shared-none : (i src dir : ℕ) (s : Paging) → Shared 0 i src dir s s
Shared-none i src dir s = record {
  tables = λ j p q. absurd (omega arith);
  physical = λ j p q. absurd (omega arith);
  outside = λ j h. (refl, refl);
  others = λ d h. refl;
  address = refl;
  kernel = refl;
  pages = refl;
  frames = refl;
}

module _ (i src dir : ℕ) (s : Paging) where
  missing : (s.directories src).tables i ≡ 0 → Shared 1 i src dir s s
  missing e =
      let same : (j : ℕ) → i ≤ j → j < i + 1 → ((s.directories src).tables j == 0) ≡ true =
        λ j p q. let d : j ≡ i = omega arith in rw (d, e) refl in
      record {
        tables = λ j p q. rw (same j p q) refl;
        physical = λ j p q. rw (same j p q) refl;
        outside = λ j h. (refl, refl);
        others = λ d h. refl;
        address = refl;
        kernel = refl;
        pages = refl;
        frames = refl;
      }

  abbrev table : ℕ
  table = (s.directories src).tables i

  abbrev physical : ℕ
  physical = (s.directories src).tables_physical i

  entered : (enter_table dir i table physical s).directories dir ≡ record (s.directories dir) {
    tables = put (s.directories dir).tables i table;
    tables_physical = put (s.directories dir).tables_physical i physical;
  }
  entered = put-same s.directories dir _

  present : table ≢ 0 → Shared 1 i src dir s (enter_table dir i table physical s)
  present h = record {
    tables = λ j p q.
        let d : j ≡ i = omega arith in
        let e : (table == 0) ≡ false = ground arith in
        rw (d, e) (ap (λ d. d.tables i) entered ∙ put-same (s.directories dir).tables i table);
    physical = λ j p q.
        let d : j ≡ i = omega arith in
        let e : (table == 0) ≡ false = ground arith in
        rw (d, e)
          (ap (λ d. d.tables_physical i) entered
            ∙ put-same (s.directories dir).tables_physical i physical);
    outside = λ j p.
        let ne : i ≢ j = ground arith in
        (
          ap (λ d. d.tables j) entered ∙ put-other (s.directories dir).tables i table j ne,
          ap (λ d. d.tables_physical j) entered
              ∙ put-other (s.directories dir).tables_physical i physical j ne,
        );
    others = λ d p. put-other s.directories dir _ d p;
    address = ap (λ d. d.physical_addr) entered;
    kernel = refl;
    pages = refl;
    frames = refl;
  }

  clone_entry-Shared :
      (fuel : ℕ)
      → Sharable src dir s
      → (s' : Paging) × (clone_entry fuel src dir i s ≡ done s') × Shared 1 i src dir s s'
  unfolding clone_entry
  clone_entry-Shared fuel c = elim (Bool-cases (table == 0)) [
    | inl e ↦ (s, rw e refl, missing (ground arith))
    | inr e ↦
        let kernel : ((s.directories s.kernel_directory).tables i == table) ≡ true =
          elim (c.of_kernel i) [ inl z ↦ absurd (ground arith) | inr k ↦ ground arith ] in
        (enter_table dir i table physical s, rw (e, kernel) refl, present (ground arith))
  ]

-- Entry i, and then the n entries behind it.
module _ (n i src dir : ℕ) (s s1 : Paging) (c : Sharable src dir s)
    (one : Shared 1 i src dir s s1) where
  same_src : s1.directories src ≡ s.directories src
  same_src = one.others src c.not_src

  Shared-next : (s2 : Paging) → Shared n (i + 1) src dir s1 s2 → Shared (suc n) i src dir s s2
  Shared-next s2 rest = record {
    tables = λ j p q. elim (Bool-cases (i == j)) [
      | inl e ↦ (rest.outside j (inl (ground arith))).0 ∙ one.tables j p (ground arith)
      | inr e ↦
          let same : (s1.directories src).tables j ≡ (s.directories src).tables j =
            ap (λ d. d.tables j) same_src in
          let before = (one.outside j (inr (ground arith))).0 in
          rest.tables j (ground arith) (ground arith) ∙ rw (same, before) refl
    ];
    physical = λ j p q. elim (Bool-cases (i == j)) [
      | inl e ↦ (rest.outside j (inl (ground arith))).1 ∙ one.physical j p (ground arith)
      | inr e ↦
          let before = (one.outside j (inr (ground arith))).1 in
          rest.physical j (ground arith) (ground arith) ∙ rw (same_src, before) refl
    ];
    outside = λ j h.
        let (a, b) =
          rest.outside j (elim h [ inl p ↦ inl (omega arith) | inr p ↦ inr (omega arith) ]) in
        let (a', b') = one.outside j (elim h [ inl p ↦ inl p | inr p ↦ inr (omega arith) ]) in
        (a ∙ a', b ∙ b');
    others = λ d h. rest.others d h ∙ one.others d h;
    address = rest.address ∙ one.address;
    kernel = rest.kernel ∙ one.kernel;
    pages = rest.pages ∙ one.pages;
    frames = rest.frames ∙ one.frames;
  }

  Sharable-next : Sharable src dir s1
  Sharable-next = record {
    not_src = c.not_src;
    not_kernel = rw one.kernel c.not_kernel;
    of_kernel = rw (one.kernel, same_src, one.others s.kernel_directory c.not_kernel) c.of_kernel;
  }

pub clone_entries-Shared :
    (n fuel i src dir : ℕ) (s : Paging)
    → Sharable src dir s
    → (s' : Paging) × (clone_entries n fuel src dir i s ≡ done s') × Shared n i src dir s s'
unfolding clone_entries
clone_entries-Shared zero fuel i src dir s c = (s, refl, Shared-none i src dir s)
clone_entries-Shared (suc n) fuel i src dir s c =
    let (s1, run, one) = clone_entry-Shared i src dir s fuel c in
    let (s2, runs, rest) =
      clone_entries-Shared n fuel (i + 1) src dir s1 (Sharable-next n i src dir s s1 c one) in
    (s2, rw (run, runs) refl, Shared-next n i src dir s s1 c one s2 rest)

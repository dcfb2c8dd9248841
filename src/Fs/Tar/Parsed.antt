-- ===== src/Fs/Tar/Parsed.antt =====
-- Which files the parser finds.
use mathlib.Core.List.{append_assoc, append-nil}
use ogos.Prelude.{
  ℕ, zero, suc, ◌+◌, ◌*◌, ◌/◌, ◌^◌, ◌<◌, ◌≡◌, ◌≢◌, ap, ap₂, sym, ◌∙◌, Bool, true, false, List, [],
  ◌∷◌, ◌++◌, arith, length, ◌==◌,
}
use ogos.Prelude.Words.{add32}
use ogos.Fs.Tar.{TarFile, parsed, bytes, getsize, skip_file, parse_from, tar_parse_mem}
use ogos.Fs.Tar.Octal.{octal, digits, getsize-octal}

-- the bytes that a file of a size takes: its header's block, and whole blocks for its contents
abbrev pub room : ℕ → ℕ
room siz = 512 + (siz + 511) / 512 * 512

skip_file-room : (p siz : ℕ) → siz < 2 ^ 32 → p + room siz < 2 ^ 32 → skip_file p siz ≡ p + room siz
unfolding skip_file
skip_file-room p siz s h = ground arith

abbrev file : List ℕ → ℕ → ℕ → TarFile
file n s d = record { tf_filename = n; tf_datasiz = s; tf_data = d }

module _ (memory : ℕ → ℕ) (allocates : ℕ → Bool) (left : ℕ → ℕ) where
  -- From p on the memory holds headers and contents of the files, the first of which is number i,
  -- and then a zero.
  abbrev pub Archive : ℕ → ℕ → List TarFile → Type 0
  Archive p i [] = memory p ≡ 0
  Archive p i (f ∷ fs) =
      (memory p ≢ 0)
      × (f.tf_filename ≡ bytes memory p 100 ++ left i ∷ [])
      × (digits memory (p + 124) 11 ≡ true)
      × (octal memory (p + 124) 11 ≡ f.tf_datasiz)
      × (f.tf_data ≡ p + 512)
      × (f.tf_datasiz < 2 ^ 32)
      × (p + room f.tf_datasiz < 2 ^ 32)
      × Archive (p + room f.tf_datasiz) (suc i) fs

  parse_from-Archive :
      (f p i : ℕ) (q fs : List TarFile)
      → Archive p i fs
      → ((n : ℕ) → allocates n ≡ true)
      → length fs < f
      → parse_from memory allocates left f p i q ≡ parsed (q ++ fs) (i + length fs)
  unfolding parse_from
  parse_from-Archive zero p i q fs a all h = elim h [ ]
  parse_from-Archive (suc f) p i q [] a all h =
      let end : (memory p == 0) ≡ true = ground arith in
      rw end (ap₂ parsed (sym (append-nil q)) (omega arith))
  parse_from-Archive (suc f) p i q (t ∷ ts) (ne, name, ds, value, data_at, small, fits, a) all h =
      let goes_on : (memory p == 0) ≡ false = ground arith in
      let at : add32 p 124 ≡ p + 124 = omega arith in
      let size : getsize memory (add32 p 124) ≡ t.tf_datasiz =
        ap (λ x. getsize memory x) at
        ∙ getsize-octal memory (p + 124) ds (omega arith)
        ∙ omega arith in
      let data_is : add32 p 512 ≡ t.tf_data = omega arith in
      let same : file (bytes memory p 100 ++ left i ∷ []) (getsize memory (add32 p 124))
            (add32 p 512)
          ≡ t =
        ap₂ (λ s d. file (bytes memory p 100 ++ left i ∷ []) s d) size data_is
        ∙ ap (λ n. file n t.tf_datasiz t.tf_data) (sym name) in
      let next : skip_file p (getsize memory (add32 p 124)) ≡ p + room t.tf_datasiz =
        ap (λ s. skip_file p s) size ∙ skip_file-room p t.tf_datasiz small fits in
      let rest =
        parse_from-Archive f (p + room t.tf_datasiz) (suc i) (q ++ t ∷ []) ts a all (omega arith) in
      rw (goes_on, all (suc i))
        (ap₂ (λ p' x. parse_from memory allocates left f p' (suc i) (q ++ x ∷ [])) next same
          ∙ rest
          ∙ ap₂ parsed (append_assoc q (t ∷ []) ts) (omega arith))

  -- The parser finds the files of an archive, in their order, and their number, when there is
  -- memory for them.
  pub tar_parse_mem-Archive :
      (fuel addr : ℕ) (fs : List TarFile)
      → Archive addr 0 fs
      → ((n : ℕ) → allocates n ≡ true)
      → length fs < fuel
      → tar_parse_mem memory allocates left fuel addr ≡ parsed fs (length fs)
  unfolding tar_parse_mem
  tar_parse_mem-Archive fuel addr fs a all h =
      rw (all 0) (parse_from-Archive fuel addr 0 [] fs a all h ∙ ap (parsed fs) (omega arith))

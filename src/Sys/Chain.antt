-- ===== src/Sys/Chain.antt =====
-- Linked lists through a `next` function: address 0 ends a list.
use mathlib.Core.Bool.{or_assoc}
use ogos.Prelude.{
  ℕ, ◌≡◌, ◌≢◌, refl, Bool, true, false, ◌||◌, List, [], ◌∷◌, ◌++◌, arith, ◌==◌, if◌then◌else◌,
}

abbrev pub has : ℕ → List ℕ → Bool
has a [] = false
has a (x ∷ xs) = a == x || has a xs

-- From p the `next` pointers lead through the distinct addresses xs to 0.
abbrev pub Chain : (ℕ → ℕ) → ℕ → List ℕ → Type 0
Chain next p [] = p ≡ 0
Chain next p (x ∷ xs) = (p ≡ x) × (x ≢ 0) × (has x xs ≡ false) × Chain next (next x) xs

abbrev pub upd : (ℕ → ℕ) → ℕ → ℕ → ℕ → ℕ
upd next a v b = if a == b then v else next b

pub has-append : (a : ℕ) (xs ys : List ℕ) → has a (xs ++ ys) ≡ (has a xs || has a ys)
has-append a [] ys = refl
has-append a (x ∷ xs) ys = rw (has-append a xs ys, or_assoc)

-- A list stands as long as the pointers of its own addresses do.
pub frame :
    (p : ℕ) (xs : List ℕ) (f g : ℕ → ℕ)
    → Chain f p xs
    → ((a : ℕ) → has a xs ≡ true → g a ≡ f a)
    → Chain g p xs
frame p [] f g c same = c
frame p (x ∷ xs) f g (e, ne, out, c) same =
    let here : g x ≡ f x = same x (ground arith) in
    (e, ne, out, rw here (frame (f x) xs f g c (λ a h. same a (ground arith))))

pub frame-upd :
    (p a v : ℕ) (xs : List ℕ) (f : ℕ → ℕ) → Chain f p xs → has a xs ≡ false → Chain (upd f a v) p xs
frame-upd p a v xs f c out = frame p xs f (upd f a v) c (λ b h. differs a b v xs f h out)
  where
    differs :
        (a b v : ℕ) (xs : List ℕ) (f : ℕ → ℕ)
        → has b xs ≡ true
        → has a xs ≡ false
        → upd f a v b ≡ f b
    differs a b v [] f h out = cc
    differs a b v (x ∷ xs) f h out = ground (arith, differs a b v xs f)

-- The rest of a list may be exchanged for another one that starts at the same address.
pub exchange :
    (p c : ℕ) (bs zs ws : List ℕ) (f g : ℕ → ℕ)
    → Chain f p (bs ++ c ∷ zs)
    → ((a : ℕ) → has a bs ≡ true → g a ≡ f a)
    → ((a : ℕ) → has a bs ≡ true → has a (c ∷ ws) ≡ false)
    → Chain g c (c ∷ ws)
    → Chain g p (bs ++ c ∷ ws)
exchange p c [] zs ws f g (e, _, _, _) same apart d = (e, d.1, d.2, d.3)
exchange p c (b ∷ bs) zs ws f g (e, ne, out, h) same apart d =
    let here : g b ≡ f b = same b (ground arith) in
    (
      e,
      ne,
      ground (arith, has-append b bs (c ∷ ws), has-append b bs (c ∷ zs), apart b),
      rw here (
          exchange (f b) c bs zs ws f g h (λ a i. same a (ground arith))
            (λ a i. apart a (ground arith)) d),
    )

-- An address goes in behind q.
pub insert_behind :
    (p q t : ℕ) (xs ys : List ℕ) (f : ℕ → ℕ)
    → Chain f p (xs ++ q ∷ ys)
    → t ≢ 0
    → has t (xs ++ q ∷ ys) ≡ false
    → Chain (upd (upd f t (f q)) q t) p (xs ++ q ∷ t ∷ ys)
insert_behind p q t [] ys f (e, nq, out_q, c) ne out =
    let g : ℕ → ℕ = upd (upd f t (f q)) q t in
    let at_q : g q ≡ t = ground arith in
    let at_t : g t ≡ f q = ground arith in
    let rest : Chain g (f q) ys =
      frame-upd (f q) q t ys (upd f t (f q)) (frame-upd (f q) t (f q) ys f c (ground arith))
        out_q in
    (e, nq, ground arith, (at_q, ne, ground arith, rw at_t rest))
insert_behind p q t (x ∷ xs) ys f (e, nx, out_x, c) ne out =
    let here : upd (upd f t (f q)) q t x ≡ f x = ground (arith, has-append x xs (q ∷ ys)) in
    (
      e,
      nx,
      ground (arith, has-append x xs (q ∷ ys), has-append x xs (q ∷ t ∷ ys)),
      rw here (insert_behind (f x) q t xs ys f c ne (ground arith)),
    )

-- The address behind q leaves the list.
pub remove_behind :
    (p q r : ℕ) (xs ys : List ℕ) (f : ℕ → ℕ)
    → Chain f p (xs ++ q ∷ r ∷ ys)
    → Chain (upd f q (f r)) p (xs ++ q ∷ ys)
remove_behind p q r [] ys f (e, nq, out_q, (e', nr, out_r, c)) =
    let at_q : upd f q (f r) q ≡ f r = ground arith in
    (e, nq, ground arith, rw at_q (frame-upd (f r) q (f r) ys f c (ground arith)))
remove_behind p q r (x ∷ xs) ys f (e, nx, out_x, c) =
    let here : upd f q (f r) x ≡ f x = ground (arith, has-append x xs (q ∷ r ∷ ys)) in
    (
      e,
      nx,
      ground (arith, has-append x xs (q ∷ r ∷ ys), has-append x xs (q ∷ ys)),
      rw here (remove_behind (f x) q r xs ys f c),
    )

-- Two neighbours in a list are not null, and the first leads to the second.
pub middle :
    (f : ℕ → ℕ) (p q r : ℕ) (xs ys : List ℕ)
    → Chain f p (xs ++ q ∷ r ∷ ys)
    → (q ≢ 0) × (f q ≡ r) × (r ≢ 0)
middle f p q r [] ys (e, nq, out, (to, nr, _, _)) = (nq, to, nr)
middle f p q r (x ∷ xs) ys (e, nx, out, c) = middle f (f x) q r xs ys c

-- A later address of a list is neither the one before it nor the first one.
pub apart :
    (f : ℕ → ℕ) (p q r : ℕ) (xs ys : List ℕ) → Chain f p (xs ++ q ∷ r ∷ ys) → (q ≢ r) × (r ≢ p)
apart f p q r [] ys (e, nq, out, c) = (ground arith, ground arith)
apart f p q r (x ∷ xs) ys (e, nx, out, c) =
    ((apart f (f x) q r xs ys c).0, ground (arith, has-append x xs (q ∷ r ∷ ys)))

-- the first address of a list, or d where it has none
abbrev pub first : List ℕ → ℕ → ℕ
first [] d = d
first (x ∷ xs) d = x

pub first-Chain :
    (f : ℕ → ℕ) (p d : ℕ) (xs : List ℕ)
    → Chain f p xs
    → d ≢ 0
    → ((if p == 0 then d else p) ≡ first xs d) × (first xs d ≢ 0)
first-Chain f p d [] e nd = (ground arith, nd)
first-Chain f p d (x ∷ xs) (e, ne, _, _) nd = (ground arith, ne)

-- The list from one of its addresses on.
pub from_on : (f : ℕ → ℕ) (p c : ℕ) (bs zs : List ℕ) → Chain f p (bs ++ c ∷ zs) → Chain f (f c) zs
from_on f p c [] zs h = h.3
from_on f p c (b ∷ bs) zs (e, ne, out, h) = from_on f (f b) c bs zs h

-- A list with an address does not start at null.
pub not_null : (f : ℕ → ℕ) (p c : ℕ) (bs zs : List ℕ) → Chain f p (bs ++ c ∷ zs) → p ≢ 0
not_null f p c [] zs h = ground arith
not_null f p c (b ∷ bs) zs h = ground arith

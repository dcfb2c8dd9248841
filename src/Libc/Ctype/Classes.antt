-- ===== src/Libc/Ctype/Classes.antt =====
-- How the classes of characters lie to one another, and what the case conversions do.
use ogos.Prelude.{◌≡◌, true, false, ◌&&◌, ◌||◌, arith}
use ogos.Prelude.Int.{ℤ, ◌+ℤ◌, ◌-ℤ◌}
use ogos.Libc.Ctype.{
  isalpha, isdigit, isalnum, isgraph, islower, ispunct, isupper, tolower, toupper,
}

-- A graphic character is a letter, a digit or a punctuation mark, and of these exactly one.
pub isgraph-partition :
    (c : ℤ)
    → (isgraph c ≡ (isalpha c || isdigit c || ispunct c))
      × ((isalpha c && isdigit c) ≡ false)
      × ((isalpha c && ispunct c) ≡ false)
      × ((isdigit c && ispunct c) ≡ false)
unfolding isgraph isalpha isdigit ispunct
isgraph-partition c = ground arith

-- `isalnum` holds of no character: it joins its two tests by `&&`.
pub isalnum-false : (c : ℤ) → isalnum c ≡ false
unfolding isalnum
isalnum-false c = ground arith

-- What `tolower` returns is a letter, and then lower case, exactly for an upper case argument: a
-- lower case letter goes to a character that is no letter. Likewise `toupper`, the cases exchanged.
pub tolower-isupper :
    (c : ℤ)
    → (isalpha (tolower c) ≡ isupper c)
      × (islower (tolower c) ≡ isupper c)
      × (isalpha (toupper c) ≡ islower c)
      × (isupper (toupper c) ≡ islower c)
unfolding tolower toupper isupper islower isalpha ◌+ℤ◌ ◌-ℤ◌
tolower-isupper c = ground arith

-- On upper case letters `toupper` undoes `tolower`.
pub toupper-tolower : (c : ℤ) → isupper c ≡ true → toupper (tolower c) ≡ c
unfolding tolower toupper isupper isalpha ◌+ℤ◌ ◌-ℤ◌
toupper-tolower c h = ground arith

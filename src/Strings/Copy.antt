-- ===== src/Strings/Copy.antt =====
-- What `memset`, `memcpy` and `strncpy` write.
use muxomucota.Base.{
  ℕ, zero, suc, ◌+◌, ◌-◌, ◌%◌, ◌≤◌, ◌<◌, ◌≡◌, List, [], ◌∷◌, length, arith, ◌⊎◌, leb, ltb, ◌&&◌,
  if◌then◌else◌, dec_lt, get_or,
}
use muxomucota.Strings.{write, memset, memcpy, strncpy}
use muxomucota.Strings.Compare.{StringAt}

-- `memset` writes the low byte of `c` to the `n` addresses from `d` on, and nothing else.
memset_lem :
    (m : ℕ → ℕ) (d c n x : ℕ)
    → memset m d c n x ≡ (if leb d x && ltb x (d + n) then c % 256 else m x)
unfolding memset
memset_lem m d c zero x = ground arith
memset_lem m d c (suc n) x = ground (arith, memset_lem (write m d (c % 256)) (suc d) c n x)

-- `memcpy` to a block that begins before the source or behind it makes the `n` bytes from `d` on
-- those that the source held, and changes no other byte.
pub memcpy_lem :
    (m : ℕ → ℕ) (d s n x : ℕ)
    → (d ≤ s) ⊎ (s + n ≤ d)
    → memcpy m d s n x ≡ (if leb d x && ltb x (d + n) then m (s + (x - d)) else m x)
unfolding memcpy
memcpy_lem m d s zero x h = ground arith
memcpy_lem m d s (suc n) x h = elim (dec_lt d x) [
  | yes l ↦
      let at : suc s + (x - suc d) ≡ s + (x - d) = omega arith in
      ground (arith, memcpy_lem (write m d (m s)) (suc d) (suc s) n x (omega arith), at)
  | no g ↦
      let at : x ≡ d → s + (x - d) ≡ s = λ e. omega arith in
      ground (arith, memcpy_lem (write m d (m s)) (suc d) (suc s) n x (omega arith), at)
]

StringAt-write :
    (m : ℕ → ℕ) (p d v : ℕ) (s : List ℕ)
    → (d < p) ⊎ (p + length s < d)
    → StringAt m p s
    → StringAt (write m d v) p s
StringAt-write m p d v [] h a = ground arith
StringAt-write m p d v (c ∷ s) h a =
    (ground arith, a.1, a.2, StringAt-write m (suc p) d v s (omega arith) a.3)

-- `strncpy` of a string to a block that begins before the string or behind it makes the `n` bytes
-- from `d` on those of the string, as far as it goes, and zeros behind it, and changes no other byte;
-- if the string is of `n` bytes or more, no zero closes the copy.
pub strncpy_lem :
    (m : ℕ → ℕ) (d s n x : ℕ) (str : List ℕ)
    → (d ≤ s) ⊎ (s + length str < d)
    → StringAt m s str
    → strncpy m d s n x ≡ (if leb d x && ltb x (d + n) then get_or str (x - d) 0 else m x)
unfolding strncpy
strncpy_lem m d s zero x str h a = ground arith
strncpy_lem m d s (suc n) x [] h a = ground (arith, memset_lem m d 0 (suc n) x)
strncpy_lem m d s (suc n) x (c ∷ str) h a =
    let tail = StringAt-write m (suc s) d (m s) str (omega arith) a.3 in
    let later = strncpy_lem (write m d (m s)) (suc d) (suc s) n x str (omega arith) tail in
    elim (dec_lt d x) [
      | yes l ↦ let at : x - d ≡ suc (x - suc d) = omega arith in ground (arith, later, at)
      | no g ↦ let at : x ≡ d → x - d ≡ 0 = λ e. omega arith in ground (arith, later, at)
    ]

-- ===== src/Ip/Address/Dotted.antt =====
-- Addresses of four numbers with dots between them, for `get_ip`.
use muxomucota.Base.{
  ℕ, ◌+◌, ◌*◌, ◌%◌, ◌^◌, ◌<◌, ◌≡◌, Bool, ◌&&◌, Option, none, some, List, [], ◌∷◌, length, ◌==◌, ltb,
  leb, if◌then◌else◌, arith, refl, ◌∙◌,
}
use muxomucota.Base.Outcome.{ok}
use muxomucota.Numbers.Value.{Digits, horner, Ended, start}
use muxomucota.Numbers.Decimal.{strtol-Digits}
use muxomucota.Ip.Address.{shift, get_ip_from, get_ip}

-- The text consists of the given groups of at most nine decimal digits, with dots between them.
abbrev pub Groups : (ℕ → ℕ) → List (List ℕ) → Type 0
Groups s [] = Unit
Groups s (ds ∷ gs) =
    (start s ≡ 0)
    × (length ds < 10)
    × Digits s 10 0 ds
    × (s (length ds) ≡ (if length gs == 0 then 0 else b'.'))
    × Groups (shift (length ds + 1) s) gs

-- The address of the groups behind `ip`, if none is above 255.
abbrev pub address : ℕ → List (List ℕ) → Option ℕ
address ip [] = some ip
address ip (ds ∷ gs) =
    if ltb 255 (horner 10 0 ds) then none else address ((ip * 256 + horner 10 0 ds) % 2 ^ 32) gs

Ended-dot :
    (s : ℕ → ℕ) (pos : ℕ) (last : Bool) → s pos ≡ (if last then 0 else b'.') → Ended s 10 pos
Ended-dot s pos last h = ground arith

get_ip_from-Groups :
    (s : ℕ → ℕ) (ip : ℕ) (gs : List (List ℕ))
    → Groups s gs
    → get_ip_from (length gs) s ip ≡ ok (address ip gs)
unfolding get_ip_from
get_ip_from-Groups s ip [] h = refl
get_ip_from-Groups s ip (ds ∷ gs) h =
    let (z, short, digits, end, others) = h in
    let (r, v) = strtol-Digits s ds z short digits (Ended-dot s (length ds) (length gs == 0) end) in
    let later =
      get_ip_from-Groups (shift (length ds + 1) s) ((ip * 256 + horner 10 0 ds) % 2 ^ 32) gs
        others in
    rw (v, r) (ground (arith, later))

four :
    (a b c d : ℕ)
    → ok (
        if ltb 255 a
        then none
        else if ltb 255 b
        then none
        else if ltb 255 c
        then none
        else if ltb 255 d
        then none
        else some (((((0 + a) % 2 ^ 32 * 256 + b) % 2 ^ 32 * 256 + c) % 2 ^ 32 * 256 + d) % 2 ^ 32))
      ≡ ok (
          if leb a 255 && leb b 255 && leb c 255 && leb d 255
          then some (a * 2 ^ 24 + b * 2 ^ 16 + c * 2 ^ 8 + d)
          else none)
four a b c d = ground arith

-- In a text of four groups of at most nine decimal digits with dots between them, `get_ip` finds the
-- address whose bytes are the groups' values, and -1 if one of them is above 255. A group may be empty, and then stands
-- for 0.
pub get_ip-Groups :
    (s : ℕ → ℕ) (a b c d : List ℕ)
    → Groups s (a ∷ b ∷ c ∷ d ∷ [])
    → get_ip s
      ≡ ok (
          if leb (horner 10 0 a) 255
            && leb (horner 10 0 b) 255
            && leb (horner 10 0 c) 255
            && leb (horner 10 0 d) 255
          then some (
              horner 10 0 a * 2 ^ 24
              + horner 10 0 b * 2 ^ 16
              + horner 10 0 c * 2 ^ 8
              + horner 10 0 d)
          else none)
unfolding get_ip
get_ip-Groups s a b c d h =
    get_ip_from-Groups s 0 (a ∷ b ∷ c ∷ d ∷ []) h
    ∙ four (horner 10 0 a) (horner 10 0 b) (horner 10 0 c) (horner 10 0 d)

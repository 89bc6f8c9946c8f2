-- ===== src/Ip/Address.antt =====
-- Addresses in text, `get_ip` of src/progs/common/ip/ip.c.
pub mod Dotted
use muxomucota.Base.{
  ℕ, zero, suc, ◌+◌, ◌*◌, ◌%◌, ◌^◌, Bool, not, ◌&&◌, ◌||◌, Option, none, some, ◌==◌, ltb,
  if◌then◌else◌,
}
use muxomucota.Base.Outcome.{Outcome, ok, ◌>>=◌}
use muxomucota.Numbers.{strtoll, strtol}

-- The text from the position `n` on.
abbrev pub shift : ℕ → (ℕ → ℕ) → ℕ → ℕ
shift n s i = s (n + i)

-- The loop of `get_ip` for the `left` parts that are left, with the address so far. `strtol` gives the
-- value, and `strtoll`, which it calls, the end.
pub get_ip_from : ℕ → (ℕ → ℕ) → ℕ → Outcome (Option ℕ)
get_ip_from zero s ip = ok (some ip)
get_ip_from (suc left) s ip = strtol s 10 >>= λ v. strtoll s 10 >>= λ r.
    let negative = v.1 && not (v.2 == 0) in
    let end = s r.2 in
    if negative || ltb 255 v.2 || (not (end == b'.') && ltb 0 left) || (not (end == 0) && left == 0)
    then ok none
    else get_ip_from left (shift (r.2 + 1) s) ((ip * 256 + v.2) % 2 ^ 32)

-- `get_ip`
pub get_ip : (ℕ → ℕ) → Outcome (Option ℕ)
unfolding get_ip_from
get_ip s = get_ip_from 4 s 0

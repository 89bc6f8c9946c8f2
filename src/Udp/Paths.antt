-- ===== src/Udp/Paths.antt =====
-- Paths with an address.
use muxomucota.Base.{
  ℕ, zero, suc, ◌+◌, ◌*◌, ◌%◌, ◌^◌, ◌≡◌, ◌≢◌, Bool, true, false, not, ◌&&◌, ◌||◌, Option, none,
  some, [], arith, refl, ◌==◌, ltb, if◌then◌else◌, ◌∙◌, sym, ap, ◌⊎◌, inl, inr,
}
use muxomucota.Base.Outcome.{Outcome, ok, >>=-eq-ok}
use muxomucota.Numbers.{strtoll, strtol}
use muxomucota.Ip.Address.{shift}
use muxomucota.Numbers.Decimal.{strtol-Digits}
use muxomucota.Tcp.Service.{get_peer_from}
use muxomucota.Udp.{UdpService, udp_peer, udp_create_pipe}

-- A part of an address that could be read was the last one, or is followed by others.
part_cases {ℓ} :
    {A : Type ℓ} (bad last : Bool) (x y : Outcome (Option A)) (r : A)
    → (if bad then ok none else if last then x else y) ≡ ok (some r)
    → (bad ≡ false) × (((last ≡ true) × (x ≡ ok (some r))) ⊎ ((last ≡ false) × (y ≡ ok (some r))))
part_cases true last x y r h = cc
part_cases false true x y r h = (refl, inl (refl, h))
part_cases false false x y r h = (refl, inr (refl, h))

colon_test : (a b c d e : Bool) → a || b || c || (not d && e) ≡ false → e ≡ true → d ≡ true
colon_test a b c true e h k = refl
colon_test false false false false e h k = cc
colon_test true b c false e h k = cc
colon_test false true c false e h k = cc
colon_test false false true false e h k = cc

==-eq : (m n : ℕ) → (m == n) ≡ true → m ≡ n
==-eq m n h = ground arith

-- What follows an address is a colon.
get_peer_from_colon :
    (left : ℕ) (s : ℕ → ℕ) (ip a : ℕ) (rest : ℕ → ℕ)
    → get_peer_from left s ip ≡ ok (some (a, rest))
    → rest 0 ≡ b':'
unfolding get_peer_from
get_peer_from_colon zero s ip a rest h = cc
get_peer_from_colon (suc left) s ip a rest h =
    let (v, ev, hv) = >>=-eq-ok (strtol s 10) _ h in
    let (r, er, hr) = >>=-eq-ok (strtoll s 10) _ hv in
    let negative = v.1 && not (v.2 == 0) in
    let ip' = (ip * 256 + v.2) % 2 ^ 32 in
    let bad =
      negative
      || ltb 255 v.2
      || (not (s r.2 == b'.') && ltb 0 left)
      || (not (s r.2 == b':') && left == 0) in
    let (good, step) = part_cases bad (left == 0) (ok (some (ip', shift r.2 s))) _ (a, rest) hr in
    elim step [
      | inl (last, e) ↦
          (let same : shift r.2 s ≡ rest = cc in
            let colon : shift r.2 s 0 ≡ b':' =
              ap s (omega arith)
              ∙ ==-eq (s r.2) b':' (
                  colon_test negative (ltb 255 v.2) (not (s r.2 == b'.') && ltb 0 left)
                    (s r.2 == b':') (left == 0) good last) in
            ap (λ f. f 0) (sym same) ∙ colon)
      | inr (more, e) ↦ get_peer_from_colon left (shift (r.2 + 1) s) ip' a rest e
    ]

-- A path has something behind its first character, and what stands there can be read as an address or not. No
-- pipe is made of it: the port is read from the colon on, where there is no number, and the colon is
-- then taken for what should be the end.
pub udp_create_pipe-none :
    (id : ℕ) (relpath : ℕ → ℕ) (s : UdpService) (r : Option (ℕ × (ℕ → ℕ)))
    → relpath 0 ≢ 0
    → get_peer_from 4 (shift 1 relpath) 0 ≡ ok r
    → udp_create_pipe id relpath s ≡ ok (none, s)
unfolding udp_create_pipe udp_peer
udp_create_pipe-none id relpath s none some_path reads =
    let path : (relpath 0 == 0) ≡ false = ground arith in rw (path, reads) refl
udp_create_pipe-none id relpath s (some (ip, rest)) some_path reads =
    let path : (relpath 0 == 0) ≡ false = ground arith in
    let colon = get_peer_from_colon 4 (shift 1 relpath) 0 ip rest reads in
    let numbers = strtol-Digits rest [] (rw colon refl) (omega arith) tt (rw colon refl) in
    rw (path, reads, numbers.0, numbers.1, colon) refl

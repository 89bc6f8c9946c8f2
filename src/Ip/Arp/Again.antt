-- ===== src/Ip/Arp/Again.antt =====
-- Two calls of `arp_lookup` in a row.
use muxomucota.Base.{
  ℕ, zero, suc, ◌+◌, ◌^◌, ◌<◌, ◌≡◌, ◌≢◌, true, false, none, some, List, [], ◌∷◌, length, set,
  get_or, arith, refl, ◌==◌, Bool-cases, Option-cases, inl, inr, All,
}
use muxomucota.Ip.Arp.{CacheEntry, Cache, is_entry, find_entry, find_oldest, no_entry, arp_lookup}
use muxomucota.Ip.Arp.Lookup.{find_oldest-Chosen, All-below, Chosen-in}

-- What is not found is neither the first nor a later one.
miss :
    (ifc ip i : ℕ) (x : CacheEntry) (es : List CacheEntry)
    → find_entry ifc ip i (x ∷ es) ≡ none
    → (is_entry ifc ip x ≡ false) × (find_entry ifc ip (suc i) es ≡ none)
unfolding find_entry
miss ifc ip i x es m = ground arith

-- An entry for the address in place of any other is the first one, where there was none.
find_entry-set :
    (ifc ip i v : ℕ) (e : CacheEntry) (es : List CacheEntry)
    → v < length es
    → is_entry ifc ip e ≡ true
    → find_entry ifc ip i es ≡ none
    → find_entry ifc ip i (set es v e) ≡ some (i + v, e.mac)
unfolding find_entry
find_entry-set ifc ip i v e [] l h m = absurd (omega arith)
find_entry-set ifc ip i zero e (x ∷ es) l h m = ground (arith, h)
find_entry-set ifc ip i (suc v) e (x ∷ es) l h m =
    let (other, later) = miss ifc ip i x es m in
    ground (arith, other, find_entry-set ifc ip (suc i) v e es (omega arith) h later)

-- The entry that is found is found again when its last use has changed.
find_entry-touch :
    (ifc ip i r mac usage : ℕ) (es : List CacheEntry)
    → find_entry ifc ip i es ≡ some (r, mac)
    → (k : ℕ) × (r ≡ i + k)
      × (find_entry ifc ip i (set es k (record (get_or es k no_entry) { last_usage = usage }))
          ≡ some (r, mac))
unfolding find_entry
find_entry-touch ifc ip i r mac usage [] h = cc
find_entry-touch ifc ip i r mac usage (x ∷ es) h = elim (Bool-cases (is_entry ifc ip x)) [
  | inl here ↦ (0, ground (arith, here), ground (arith, here))
  | inr other ↦
      let (k, e, f) = find_entry-touch ifc ip (suc i) r mac usage es (ground (arith, other)) in
      (suc k, omega arith, ground (arith, other, f))
]

-- After `arp_lookup` has found a MAC address for an address, it gives the same MAC address when it is called
-- again, whatever the other host would answer by then.
pub arp_lookup_again :
    (reply reply' ifc ip : ℕ) (c : Cache)
    → 0 < length c.entries
    → c.usage_counter < 2 ^ 31
    → All (λ e. e.last_usage < c.usage_counter) c.entries
    → (arp_lookup reply ifc ip c).0 ≢ 0
    → (arp_lookup reply' ifc ip (arp_lookup reply ifc ip c).1).0 ≡ (arp_lookup reply ifc ip c).0
unfolding arp_lookup
arp_lookup_again reply reply' ifc ip c pos small recent nz =
    elim (Option-cases (find_entry ifc ip 0 c.entries)) [
      | inl missing ↦
          let v = find_oldest c.usage_counter 0 0 c.entries in
          let ch =
            find_oldest-Chosen c.usage_counter 0 0 c.entries small
              (All-below c.usage_counter c.entries recent small) in
          let new : CacheEntry = record {
            ifc = ifc;
            ip = ip;
            mac = reply;
            last_usage = c.usage_counter;
          } in
          let hit : is_entry ifc ip new ≡ true = ground arith in
          let again =
            find_entry-set ifc ip 0 v new c.entries (Chosen-in c.usage_counter c.entries v pos ch)
              hit missing in
          elim (Bool-cases (reply == 0)) [
            | inl silent ↦ absurd (nz (rw (missing, silent, arp_lookup) refl))
            | inr answered ↦ rw (missing, answered, again, arp_lookup) refl
          ]
      | inr (r, found) ↦
          let (k, e, again) = find_entry-touch ifc ip 0 r.0 r.1 c.usage_counter c.entries found in
          let same : r.0 ≡ k = omega arith in rw (found, same, again, arp_lookup) refl
    ]

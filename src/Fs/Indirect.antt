-- ===== src/Fs/Indirect.antt =====
-- The blocks behind a block of indices: bmap of fs/minix1/bmap.c from block 7 on. It replaces
-- `index` before it reads the number of the block of indices.
use rdix.Common.{
  ℕ, ◌+◌, ◌-◌, ◌/◌, ◌<◌, ◌≡◌, ◌≢◌, ◌∙◌, inl, inr, refl, false, Option, none, some, arith, Outcome,
  ok, panic, ◌>>=◌, >>=-eq, >>=-twice, lt→ltb, le→ltb, ◌==◌, Option-cases, get_elem?, u16,
}
use rdix.Fs.{DInode, Fs}
use rdix.Fs.Zones.{zones, indices, words_of, get_zone, reckon, bmap_from, bmap, zones_idx_per_block}
use rdix.Fs.Direct.{Held, dev_of-Held, desc_of-Held, get_zone-Held}

abbrev pub or_stop : Option ℕ → Outcome ℕ
or_stop none = panic
or_stop (some nr) = ok nr

-- Number `k` of the block that zone `k` of the descriptor names.
abbrev pub astray : ℕ → ℕ → DInode → Fs → Outcome (ℕ × Fs)
astray k dev desc fs = do
  buf ← or_stop (get_elem? desc.zone k)
  nr ← or_stop (get_elem? (words_of (fs.bytes dev buf)) k)
  ok (nr, fs)

get_zone-or_stop :
    {i dev : ℕ} {desc : DInode} {fs : Fs} (k : ℕ)
    → Held i dev desc fs
    → get_zone i zones k fs ≡ or_stop (get_elem? desc.zone k)
unfolding get_zone
get_zone-or_stop {i} {dev} {desc} {fs} k h = elim (Option-cases (get_elem? desc.zone k)) [
  | inl e ↦
      let step : get_zone i zones k fs
          ≡ (elim (get_elem? desc.zone k) [ none ↦ panic | some n ↦ ok n ]) =
        rw (get_zone, desc_of-Held h) refl in
      step ∙ rw e refl
  | inr (nr, e) ↦ get_zone-Held k nr h e ∙ rw e refl
]

get_index-or_stop :
    {i dev : ℕ} {desc : DInode} {fs : Fs} (k buf : ℕ)
    → Held i dev desc fs
    → get_zone i (indices buf) k fs ≡ or_stop (get_elem? (words_of (fs.bytes dev buf)) k)
unfolding get_zone
get_index-or_stop {i} {dev} {desc} {fs} k buf h =
    let words = words_of (fs.bytes dev buf) in
    let step : get_zone i (indices buf) k fs
        ≡ (elim (get_elem? words k) [ none ↦ panic | some n ↦ ok n ]) =
      rw (get_zone, dev_of-Held h) refl in
    step ∙ elim (Option-cases (get_elem? words k)) [ inl e ↦ rw e refl | inr (nr, e) ↦ rw e refl ]

-- Where the zone of the block of indices is there, bmap without `create` gives for block 7 + k the
-- number k of the block that zone k names, and not of the block of indices; without a zone k it
-- reads behind the descriptor.
pub bmap-astray :
    {i dev : ℕ} {desc : DInode} {fs : Fs} (k single : ℕ)
    → Held i dev desc fs
    → k < 7 + zones_idx_per_block
    → 7 + k < (fs.supers dev).zones
    → get_elem? desc.zone 7 ≡ some single
    → single ≢ 0
    → bmap i (7 + k) false fs ≡ astray k dev desc fs
unfolding bmap bmap_from reckon
bmap-astray {i} {dev} {desc} {fs} k single h low small e there =
    let full : (single == 0) ≡ false = ground (arith, there) in
    let less : 7 + k - 7 ≡ k = omega arith in
    let next : u16 (k / 1) ≡ k = omega arith in
    rw
      (
        dev_of-Held h,
        lt→ltb (7 + k) _ small,
        le→ltb (7 + k) 7 (omega arith),
        less,
        lt→ltb k (7 + zones_idx_per_block) low,
        get_zone-Held 7 single h e,
        full,
        next,
        get_zone-or_stop k h,
      )
      (>>=-eq (or_stop (get_elem? desc.zone k)) _ _
        λ buf e1. rw (get_index-or_stop k buf h) (>>=-twice (or_stop _) (λ nr. ok (nr, fs))))

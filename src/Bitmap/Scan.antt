-- ===== src/Bitmap/Scan.antt =====
-- `bitmap_scan` finds the first run of free bits that is long enough, and takes it.
use rdix.Common.{
  ℕ, zero, suc, ◌+◌, ◌-◌, ◌*◌, ◌^◌, ◌≤◌, ◌<◌, ◌≡◌, ◌∙◌, refl, inl, inr, Bool, true, false, Option,
  none, some, arith, ok, Outcome, Bool-cases, ltb, ◌==◌, ltb→lt, ltb→le, ==→eq, ==→ne, u32,
}
use native.Mathlib.Nat.{add_comm}
use rdix.Bitmap.{Bitmap, bit_at, bitmap_test, bitmap_set, fill, scan_loop, bitmap_scan}
use rdix.Bitmap.Bits.{IsValid, marked, Wrote, bitmap_test-ok, bitmap_set_lem}

-- the number of bits of the table
abbrev pub bits : Bitmap → ℕ
bits m = m.length * 8

pub Wrote-trans :
    {m m1 m2 : Bitmap} (idx n : ℕ) (s : Bool)
    → Wrote m idx 1 s m1
    → Wrote m1 (idx + 1) n s m2
    → Wrote m idx (n + 1) s m2
Wrote-trans idx n s w1 w2 = record {
  valid = w2.valid;
  same_length = w2.same_length ∙ w1.same_length;
  same_offset = w2.same_offset ∙ w1.same_offset;
  bits = λ j h. ground (arith, w1.same_offset, w1.bits j h, w2.bits j);
}

pub Wrote-nothing : {m : Bitmap} (idx : ℕ) (s : Bool) → IsValid m → Wrote m idx 0 s m
Wrote-nothing idx s v = record {
  valid = v;
  same_length = refl;
  same_offset = refl;
  bits = λ j h. ground arith;
}

fill-suc :
    (n : ℕ) (m : Bitmap) (idx : ℕ) {r : Bool × Bitmap}
    → bitmap_set m idx true ≡ ok r
    → idx + 1 < 2 ^ 32
    → fill (suc n) m idx ≡ fill n r.1 (idx + 1)
unfolding fill
fill-suc n m idx e h = let fits : u32 (idx + 1) ≡ idx + 1 = omega arith in rw (e, fits)

-- The `for` of `bitmap_scan` marks the whole run.
fill-Wrote :
    (n : ℕ) {m : Bitmap} (idx : ℕ)
    → IsValid m
    → m.offset ≤ idx
    → idx + n ≤ m.offset + bits m
    → (m' : Bitmap) × (fill n m idx ≡ ok m') × Wrote m idx n true m'
fill-Wrote zero {m} idx v h k = (m, unfold fill in refl, Wrote-nothing idx true v)
fill-Wrote (suc n) {m} idx v h k =
    let (b, m1, e, w, _) = bitmap_set_lem idx true v (omega arith) in
    let (m2, e2, w2) =
      fill-Wrote n {m = m1} (idx + 1) w.valid (omega (arith, w.same_offset))
        (omega (arith, w.same_offset, w.same_length)) in
    (
      m2,
      fill-suc n m idx e (omega (arith, v.room)) ∙ e2,
      let last : n + 1 ≡ suc n = omega arith in rw last at (Wrote-trans idx n true w w2),
    )

-- One round of the `while`, on each of its branches.
module _ {m : Bitmap} (v : IsValid m) (count start local f : ℕ) where
  scan-end :
      bits m ≤ start + local
      → start + local < 2 ^ 32
      → scan_loop (suc f) m count start local ≡ ok (none, m)
  unfolding scan_loop
  scan-end h k = ground (arith, v.room)

  module _ (here : start + local < bits m) where
    read : bitmap_test m (u32 (start + local + m.offset)) ≡ ok (bit_at m.start (start + local))
    read =
        let fits : u32 (start + local + m.offset) ≡ start + local + m.offset =
          omega (arith, v.room) in
        let back : start + local + m.offset - m.offset ≡ start + local = omega arith in
        rw fits (bitmap_test-ok v (start + local + m.offset) (omega arith) ∙ rw back)

    scan-used :
        bit_at m.start (start + local) ≡ true
        → scan_loop (suc f) m count start local ≡ scan_loop f m count (start + local + 1) 0
    unfolding scan_loop
    scan-used used =
        let fits : u32 (start + local + 1) ≡ start + local + 1 = omega (arith, v.room) in
        rw (read, used, fits) (ground (arith, v.room))

    module _ (free : bit_at m.start (start + local) ≡ false) where
      scan-onward :
          local + 1 < count
          → count < 2 ^ 32
          → scan_loop (suc f) m count start local ≡ scan_loop f m count start (local + 1)
      unfolding scan_loop
      scan-onward more small =
          let fits : u32 (local + 1) ≡ local + 1 = omega (arith, v.room) in
          rw (read, free, fits) (ground (arith, v.room))

      scan-found :
          {m' : Bitmap}
          → local + 1 ≡ count
          → count < 2 ^ 32
          → fill count m (m.offset + start) ≡ ok m'
          → scan_loop (suc f) m count start local ≡ ok (some (start + m.offset), m')
      unfolding scan_loop
      scan-found last small filled =
          let fits : u32 (m.offset + start) ≡ m.offset + start = omega (arith, v.room) in
          let fits' : u32 (start + m.offset) ≡ start + m.offset = omega (arith, v.room) in
          rw (read, free, fits, fits', filled) (ground (arith, v.room))

-- No run of `count` free bits begins at index `t`: the table ends before, or a bit is taken.
abbrev pub Blocked : Bitmap → ℕ → ℕ → Type 0
Blocked m count t = (k : ℕ) × (k < count) × (t + k < bits m) × (bit_at m.start (t + k) ≡ true)

-- What `bitmap_scan` promises of its result and of the table that it leaves.
pub record Found (m : Bitmap) (count idx : ℕ) (m' : Bitmap) : Type 0 where
  pub above : m.offset ≤ idx
  pub fits : idx + count ≤ m.offset + bits m
  pub free : (k : ℕ) → k < count → marked m (idx + k) ≡ false
  pub first : (t : ℕ) → m.offset + t < idx → Blocked m count t
  pub taken : Wrote m idx count true m'

abbrev pub Scanned : Bitmap → ℕ → Option ℕ → Bitmap → Type 0
Scanned m count none m' = (m' ≡ m) × ((t : ℕ) → t + count ≤ bits m → Blocked m count t)
Scanned m count (some idx) m' = Found m count idx m'

abbrev pub Scans : Bitmap → ℕ → Outcome (Option ℕ × Bitmap) → Type 0
Scans m count r = (o : Option ℕ) × (m' : Bitmap) × (r ≡ ok (o, m')) × Scanned m count o m'

-- The invariant of the `while`: no run begins before `start`, and `local` free bits stand there.
record Looking (m : Bitmap) (count start local : ℕ) : Type 0 where
  short : local < count
  inside : start + local ≤ bits m
  free : (k : ℕ) → k < local → bit_at m.start (start + k) ≡ false
  before : (t : ℕ) → t < start → Blocked m count t

module _ {m : Bitmap} (v : IsValid m) (count : ℕ) (small : count < 2 ^ 32) where
  Looking-used :
      (start local : ℕ)
      → start + local < bits m
      → bit_at m.start (start + local) ≡ true
      → Looking m count start local
      → Looking m count (start + local + 1) 0
  Looking-used start local here used l = record {
    short = omega (arith, l.short);
    inside = omega arith;
    free = λ k h. absurd (omega arith);
    before = λ t h. elim (Bool-cases (ltb t start)) [
      | inl lt ↦ l.before t (ltb→lt _ _ lt)
      | inr ge ↦
          let from : start ≤ t = ltb→le _ _ ge in
          let at : t + (start + local - t) ≡ start + local = omega arith in
          (start + local - t, omega (arith, l.short), rw at here, rw at used)
    ];
  }

  Looking-onward :
      (start local : ℕ)
      → start + local < bits m
      → bit_at m.start (start + local) ≡ false
      → local + 1 < count
      → Looking m count start local
      → Looking m count start (local + 1)
  Looking-onward start local here free more l = record {
    short = more;
    inside = omega arith;
    free = λ k h. elim (Bool-cases (k == local)) [
      | inl e ↦ rw (==→eq _ _ e) free
      | inr e ↦ l.free k (omega (arith, ==→ne k local e))
    ];
    before = l.before;
  }

  Found-here :
      (start local : ℕ) {m' : Bitmap}
      → start + local < bits m
      → bit_at m.start (start + local) ≡ false
      → local + 1 ≡ count
      → Looking m count start local
      → Wrote m (m.offset + start) count true m'
      → Found m count (start + m.offset) m'
  Found-here start local {m'} here free last l w = record {
    above = omega arith;
    fits = omega arith;
    free = λ k h.
        let at : start + m.offset + k - m.offset ≡ start + k = omega arith in
        rw at (elim (Bool-cases (k == local)) [
          | inl e ↦ rw (==→eq _ _ e) free
          | inr e ↦ l.free k (omega (arith, ==→ne k local e))
        ]);
    first = λ t h. l.before t (omega arith);
    taken = rw (add_comm start m.offset) w;
  }

  scan_loop-Scans :
      (f start local : ℕ)
      → Looking m count start local
      → bits m < start + local + f
      → Scans m count (scan_loop f m count start local)
  scan_loop-Scans zero start local l h = absurd (omega (arith, l.inside))
  scan_loop-Scans (suc f) start local l h = elim (Bool-cases (ltb (start + local) (bits m))) [
    | inr e ↦ (
      none,
      m,
      scan-end v count start local f (ltb→le _ _ e) (omega (arith, l.inside, v.room)),
      (refl, λ t fits. l.before t (omega (arith, ltb→le _ _ e, l.short))),
    )
    | inl e ↦
        let here = ltb→lt _ _ e in
        elim (Bool-cases (bit_at m.start (start + local))) [
          | inl used ↦ rw (scan-used v count start local f here used) (
              scan_loop-Scans f (start + local + 1) 0 (Looking-used start local here used l)
                (omega arith))
          | inr free ↦ elim (Bool-cases (local + 1 == count)) [
            | inl e' ↦
                let last = ==→eq _ _ e' in
                let (m', filled, w) =
                  fill-Wrote count (m.offset + start) v (omega arith) (omega arith) in
                (
                  some (start + m.offset),
                  m',
                  scan-found v count start local f here free last small filled,
                  Found-here start local here free last l w,
                )
            | inr e' ↦
                let more : local + 1 < count = omega (arith, l.short, ==→ne (local + 1) count e') in
                rw (scan-onward v count start local f here free more small) (
                  scan_loop-Scans f start (local + 1) (Looking-onward start local here free more l)
                    (omega arith))
          ]
        ]
  ]

  -- On a well formed table `bitmap_scan` neither stops the kernel nor runs for ever. It returns the
  -- first index at which `count` bits are free and marks exactly these; it returns EOF, with the
  -- table as it was, only where there is no such index.
  pub bitmap_scan_lem : 0 < count → Scans m count (bitmap_scan m count)
  unfolding bitmap_scan
  bitmap_scan_lem h =
      scan_loop-Scans (bits m + 1) 0 0
        (record {
          short = h;
          inside = omega arith;
          free = λ k h. absurd (omega arith);
          before = λ t h. absurd (omega arith);
        })
        (omega arith)

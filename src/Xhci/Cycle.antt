-- ===== src/Xhci/Cycle.antt =====
-- What the requests of hd/usb3.0/ringProc.c do to a ring: the place moves on round the ring, and the
-- cycle flag stays as it was set at the start.
use Prim.Native.Nat.{bit_or}
use rdix.Common.{
  ℕ, zero, suc, ◌+◌, ◌-◌, ◌*◌, ◌/◌, ◌<◌, ◌≡◌, ◌≢◌, ◌∙◌, inl, inr, refl, sym, ap, true, false, some,
  List, [], ◌∷◌, arith, ok, lt→ltb, leb, ◌==◌, ==→eq, ==→ne, Bool-cases, some-inj, if◌then◌else◌,
  length, length-set, get_elem?, get_elem?-set_self, get_elem?-set_ne, set,
}
use mathlib.Core.Path.{subst}
use rdix.Xhci.{Trb, Ring, link_trb, type_of, bit1, with_cycle, trb_at, follow, next_trb, enqueue}

-- Not a link, and without the bit that a link toggles the cycle by.
abbrev pub Plain : Trb → Type 0
Plain t = ((type_of t.word3 == link_trb) ≡ false) × (bit1 t.word3 ≡ false)

-- A ring of `n` places and a link behind them that leads back to the first.
pub record IsRing (n : ℕ) (ring : Ring) : Type 0 where
  pub long : length ring.trbs ≡ suc n
  pub inside : ring.trb < n
  pub plain : (i : ℕ) (t : Trb) → i < n → get_elem? ring.trbs i ≡ some t → Plain t
  pub link :
      (t : Trb) × (get_elem? ring.trbs n ≡ some t)
      × ((type_of t.word3 == link_trb) ≡ true)
      × (t.word0 ≡ ring.base)
  pub cycle : ring.cycle_flag ≡ true

at-inside : (trbs : List Trb) (i : ℕ) → i < length trbs → (t : Trb) × (get_elem? trbs i ≡ some t)
at-inside [] i low = absurd (omega arith)
at-inside (t ∷ trbs) zero low = (t, refl)
at-inside (t ∷ trbs) (suc i) low = at-inside trbs i (omega arith)

abbrev pub next_place : ℕ → ℕ → ℕ
next_place n i = if i + 1 == n then 0 else i + 1

-- A plain TRB written at a place keeps the ring.
set-IsRing :
    (n i : ℕ) (t : Trb) (ring : Ring)
    → IsRing n ring
    → i < n
    → Plain t
    → IsRing n (record ring { trbs = set ring.trbs i t })
set-IsRing n i t ring h low plain =
    let (old, there) = at-inside ring.trbs i (omega (arith, h.long)) in
    let (link, at, is, back) = h.link in
    record {
      long = length-set ring.trbs i t ∙ h.long;
      inside = h.inside;
      plain = λ j s below e. elim (Bool-cases (j == i)) [
        | inl b ↦
            let same : t ≡ s =
              some-inj (sym (get_elem?-set_self ring.trbs i t old there) ∙ rw (==→eq j i b) at e) in
            subst Plain same plain
        | inr b ↦ h.plain j s below (sym (get_elem?-set_ne ring.trbs i j t (==→ne j i b)) ∙ e)
      ];
      link = (link, get_elem?-set_ne ring.trbs i n t (λ e. absurd (omega arith)) ∙ at, is, back);
      cycle = h.cycle;
    }

-- The link gets the cycle flag, which changes neither its type nor its address.
link-IsRing :
    (n : ℕ) (link : Trb) (ring : Ring)
    → IsRing n ring
    → get_elem? ring.trbs n ≡ some link
    → (type_of link.word3 == link_trb) ≡ true
    → link.word0 ≡ ring.base
    → IsRing n (record ring { trbs = set ring.trbs n (with_cycle true link); trb = 0 })
link-IsRing n link ring h at is back = record {
  long = length-set ring.trbs n (with_cycle true link) ∙ h.long;
  inside = omega (arith, h.inside);
  plain = λ j s below e. h.plain j s below (
      sym (get_elem?-set_ne ring.trbs n j (with_cycle true link) (λ same. absurd (omega arith)))
      ∙ e);
  link = (
    with_cycle true link,
    get_elem?-set_self ring.trbs n (with_cycle true link) link at,
    (let same : (link.word3 / 2 * 2 + 1) / 1024 ≡ link.word3 / 1024 = omega arith in rw same is),
    back,
  );
  cycle = h.cycle;
}

trb_at-get_elem? :
    (i : ℕ) (trbs : List Trb) (t : Trb) → get_elem? trbs i ≡ some t → trb_at i trbs ≡ ok t
unfolding trb_at
trb_at-get_elem? i trbs t e = rw (trb_at, e) refl

flagged : (ring : Ring) → ring.cycle_flag ≡ true → ring ≡ record ring { cycle_flag = true }
flagged ring cycle = ap (λ c. record ring { cycle_flag = c }) cycle

-- Behind the last place the link leads to the first.
follow-first :
    (n : ℕ) (link first : Trb) (ring : Ring)
    → ring.cycle_flag ≡ true
    → link.word0 ≡ ring.base
    → get_elem? (set ring.trbs n (with_cycle true link)) 0 ≡ some first
    → bit1 first.word3 ≡ false
    → follow ring n link
      ≡ ok (record ring {
        trbs = set ring.trbs n (with_cycle true link);
        trb = 0;
        cycle_flag = true;
      })
unfolding follow
follow-first n link first ring cycle back at no_bit =
    let reach : leb ring.base link.word0 ≡ true = ground (arith, back) in
    let zero_place : (link.word0 - ring.base) / 16 ≡ 0 = omega (arith, back) in
    let there = trb_at-get_elem? 0 (set ring.trbs n (with_cycle true link)) first at in
    ap (λ r. follow r n link) (flagged ring cycle) ∙ rw (reach, zero_place, there, no_bit) refl

next_trb-IsRing :
    (n : ℕ) (ring : Ring)
    → IsRing n ring
    → (after : Ring) × (next_trb ring ≡ ok after)
      × IsRing n after
      × (after.trb ≡ next_place n ring.trb)
      × ((i : ℕ) → i < n → get_elem? after.trbs i ≡ get_elem? ring.trbs i)
unfolding next_trb
next_trb-IsRing n ring h = elim (Bool-cases (ring.trb + 1 == n)) [
  | inr b ↦
      let low : ring.trb + 1 < n = omega (arith, h.inside, ==→ne (ring.trb + 1) n b) in
      let (t, at) = at-inside ring.trbs (ring.trb + 1) (omega (arith, h.long)) in
      let (no_link, no_bit) = h.plain (ring.trb + 1) t low at in
      (
        record ring { trb = ring.trb + 1 },
        rw (trb_at-get_elem? (ring.trb + 1) ring.trbs t at, no_link) refl,
        record { long = h.long; inside = low; plain = h.plain; link = h.link; cycle = h.cycle },
        rw b refl,
        λ i below. refl,
      )
  | inl b ↦
      let (link, at, is, back) = h.link in
      let here = ==→eq (ring.trb + 1) n b in
      let now = link-IsRing n link ring h at is back in
      let (first, there) =
        at-inside (set ring.trbs n (with_cycle true link)) 0 (omega (arith, now.long)) in
      let (no_link, no_bit) = now.plain 0 first now.inside there in
      (
        record ring { trbs = set ring.trbs n (with_cycle true link); trb = 0; cycle_flag = true },
        rw (here, trb_at-get_elem? n ring.trbs link at, is)
            (follow-first n link first ring h.cycle back there no_bit),
        record {
          long = now.long;
          inside = now.inside;
          plain = now.plain;
          link = now.link;
          cycle = refl;
        },
        rw b refl,
        λ i below.
            get_elem?-set_ne ring.trbs n i (with_cycle true link) (λ same. absurd (omega arith)),
      )
]

-- What a request leaves: its TRB at the place where the ring stood, and the ring at the next place.
pub record Enqueued (n word0 word1 word2 flags : ℕ) (before after : Ring) : Type 0 where
  pub ring : IsRing n after
  pub moved : after.trb ≡ next_place n before.trb
  pub written :
      get_elem? after.trbs before.trb
      ≡ some (record { word0 = word0; word1 = word1; word2 = word2; word3 = bit_or flags 1 })
  pub others : (i : ℕ) → i < n → i ≢ before.trb → get_elem? after.trbs i ≡ get_elem? before.trbs i

-- A TRB that is no link: it is written at the place where the ring stands, the ring moves to the next
-- place, or behind the last one to the first, and no other TRB of a place differs. The cycle flag is
-- the same in each round of the ring.
pub enqueue-Enqueued :
    (n word0 word1 word2 flags : ℕ) (ring : Ring)
    → IsRing n ring
    → (type_of (bit_or flags 1) == link_trb) ≡ false
    → bit1 (bit_or flags 1) ≡ false
    → (after : Ring) × (enqueue word0 word1 word2 flags ring ≡ ok after)
      × Enqueued n word0 word1 word2 flags ring after
unfolding enqueue
enqueue-Enqueued n word0 word1 word2 flags ring h no_link no_bit =
    let t : Trb = record { word0 = word0; word1 = word1; word2 = word2; word3 = bit_or flags 1 } in
    let set_ring : Ring = record ring { cycle_flag = true } in
    let sure : IsRing n set_ring = record {
      long = h.long;
      inside = h.inside;
      plain = h.plain;
      link = h.link;
      cycle = refl;
    } in
    let put : Ring = record set_ring { trbs = set ring.trbs ring.trb t } in
    let (old, there) = at-inside ring.trbs ring.trb (omega (arith, h.long, h.inside)) in
    let (after, run, sound, moved, kept) =
      next_trb-IsRing n put (set-IsRing n ring.trb t set_ring sure h.inside (no_link, no_bit)) in
    (
      after,
      ap (enqueue word0 word1 word2 flags) (flagged ring h.cycle)
          ∙ rw (lt→ltb ring.trb (length ring.trbs) (omega (arith, h.long, h.inside))) run,
      record {
        ring = sound;
        moved = moved;
        written = kept ring.trb h.inside ∙ get_elem?-set_self ring.trbs ring.trb t old there;
        others = λ i below ne. kept i below ∙ get_elem?-set_ne ring.trbs ring.trb i t ne;
      },
    )

-- ===== src/Buffers/Choice.antt =====
-- The search of getblk in fs/buffer.c for a buffer to use again, when no new one fits.
use rdix.Common.{
  ℕ, ◌≤◌, ◌<◌, ◌≡◌, ◌⊎◌, ◌∙◌, inl, inr, refl, sym, true, none, some, List, [], ◌∷◌, arith, ltb,
  ◌==◌, ==→eq, Bool-cases,
}
use rdix.Tasks.{count}
use rdix.Buffers.{Buffer, score, better, weigh, consider, choose}

-- The buffer has a user, or a task that waits for it.
abbrev pub Busy : Buffer → Type 0
Busy b = (0 < b.b_count) ⊎ (b.waiter ≡ true)

-- Each of the buffers is busy, or has a score that is not below.
abbrev pub Least : (ℕ → Buffer) → ℕ → List ℕ → Type 0
Least buffers n ids = (a : ℕ) → 0 < count a ids → Busy (buffers a) ⊎ (n ≤ score (buffers a))

abbrev AllBusy : (ℕ → Buffer) → List ℕ → Type 0
AllBusy buffers ids = (a : ℕ) → 0 < count a ids → Busy (buffers a)

count-cases : (a id : ℕ) (ids : List ℕ) → 0 < count a (id ∷ ids) → (a ≡ id) ⊎ (0 < count a ids)
count-cases a id ids h = elim (Bool-cases (id == a)) [
  | inl b ↦ inl (sym (==→eq id a b))
  | inr b ↦ inr (ground (arith, h, b))
]

Least-down :
    (buffers : ℕ → Buffer) (n id : ℕ) (ids : List ℕ)
    → Busy (buffers id) ⊎ (n ≤ score (buffers id))
    → Least buffers n ids
    → Least buffers n (id ∷ ids)
Least-down buffers n id ids here rest a h = elim (count-cases a id ids h) [
  | inl e ↦ rw e here
  | inr later ↦ rest a later
]

better-le :
    (buffers : ℕ → Buffer) (id bf : ℕ)
    → (score (buffers (better buffers id bf)) ≤ score (buffers bf))
      × (score (buffers (better buffers id bf)) ≤ score (buffers id))
better-le buffers id bf = elim (Bool-cases (ltb (score (buffers id)) (score (buffers bf)))) [
  | inl b ↦ rw b (ground (arith, b), omega arith)
  | inr b ↦ rw b (omega arith, ground (arith, b))
]

-- With one found the search gives one that is not worse than it and those that are left.
choose-some :
    (buffers : ℕ → Buffer) (bf : ℕ) (ids : List ℕ)
    → (x : ℕ) × (choose buffers (some bf) ids ≡ some x)
      × (score (buffers x) ≤ score (buffers bf))
      × Least buffers (score (buffers x)) ids
unfolding choose consider weigh
choose-some buffers bf [] = (bf, refl, omega arith, λ a h. absurd (omega arith))
choose-some buffers bf (id ∷ ids) =
    let (x, run, low, least) = choose-some buffers bf ids in
    elim (Bool-cases ((buffers id).b_count == 0)) [
      | inr b ↦ (
        x,
        rw (b, run) refl,
        low,
        Least-down buffers (score (buffers x)) id ids (inl (inl (ground (arith, b)))) least,
      )
      | inl b ↦ elim (Bool-cases (buffers id).waiter) [
        | inl w ↦ (
          x,
          rw (b, w, run) refl,
          low,
          Least-down buffers (score (buffers x)) id ids (inl (inr w)) least,
        )
        | inr w ↦ elim (Bool-cases (score (buffers bf) == 0)) [
          | inl z ↦
              let best = ==→eq (score (buffers bf)) 0 z in
              (bf, rw (b, w, z) refl, omega arith, λ a h. inr (omega (arith, best)))
          | inr z ↦
              let (y, run', low', least') = choose-some buffers (better buffers id bf) ids in
              let (below, here) = better-le buffers id bf in
              (
                y,
                rw (b, w, z) run',
                omega (arith, low', below),
                Least-down buffers (score (buffers y)) id ids (inr (omega (arith, low', here)))
                    least',
              )
        ]
      ]
    ]

-- What the search comes to: nothing, where each buffer is busy, or one of the least score among those
-- that are not.
abbrev pub Choice : (ℕ → Buffer) → List ℕ → Type 0
Choice buffers ids =
    ((choose buffers none ids ≡ none) × AllBusy buffers ids)
    ⊎ ((x : ℕ) × (choose buffers none ids ≡ some x) × Least buffers (score (buffers x)) ids)

-- A busy buffer is passed by.
past :
    (buffers : ℕ → Buffer) (id : ℕ) (ids : List ℕ)
    → Busy (buffers id)
    → choose buffers none (id ∷ ids) ≡ choose buffers none ids
    → Choice buffers ids
    → Choice buffers (id ∷ ids)
past buffers id ids busy step (inl (run, all)) = inl (
  step ∙ run,
  λ a h. elim (count-cases a id ids h) [ inl e ↦ rw e busy | inr later ↦ all a later ],
)
past buffers id ids busy step (inr (x, run, least)) =
    inr (x, step ∙ run, Least-down buffers (score (buffers x)) id ids (inl busy) least)

pub choose-Least : (buffers : ℕ → Buffer) (ids : List ℕ) → Choice buffers ids
unfolding choose consider weigh
choose-Least buffers [] = inl (refl, λ a h. absurd (omega arith))
choose-Least buffers (id ∷ ids) =
    let rest = choose-Least buffers ids in
    elim (Bool-cases ((buffers id).b_count == 0)) [
      | inr b ↦ past buffers id ids (inl (ground (arith, b))) (rw b refl) rest
      | inl b ↦ elim (Bool-cases (buffers id).waiter) [
        | inl w ↦ past buffers id ids (inr w) (rw (b, w) refl) rest
        | inr w ↦ elim (Bool-cases (score (buffers id) == 0)) [
          | inl z ↦
              let best = ==→eq (score (buffers id)) 0 z in
              inr (id, rw (b, w, z) refl, λ a h. inr (omega (arith, best)))
          | inr z ↦
              let (y, run, low, least) = choose-some buffers (better buffers id id) ids in
              let (_, here) = better-le buffers id id in
              inr (
                y,
                rw (b, w, z) run,
                Least-down buffers (score (buffers y)) id ids (inr (omega (arith, low, here)))
                    least,
              )
        ]
      ]
    ]

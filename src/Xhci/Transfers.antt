-- ===== src/Xhci/Transfers.antt =====
-- A control transfer of hd/usb3.0/ringProc.c leaves its stages in order on the ring.
use Prim.Native.Nat.{bit_or}
use rdix.Common.{
  ℕ, ◌+◌, ◌*◌, ◌^◌, ◌≤◌, ◌<◌, ◌≡◌, ◌≢◌, ◌⊎◌, ◌∙◌, inl, inr, refl, Option, some, arith, ok, ◌==◌,
  ==→eq, ==→ne, Bool-cases, get_elem?, ◌∷◌, u32,
}
use rdix.Xhci.{Trb, Ring, slot_addressed, UsbDevice, Xhc, type_of}
use rdix.Xhci.Requests.{
  setup_stage, data_stage, status_stage, in_data_stage, setup, data_in, status, submitted,
  xhc_transfer_get_descriptor,
}
use rdix.Xhci.Cycle.{IsRing, next_place, Enqueued, enqueue-Enqueued}

-- the type of the TRB at a place of a ring
abbrev pub StageAt : ℕ → ℕ → Ring → Type 0
StageAt stage i ring = (t : Trb) × (get_elem? ring.trbs i ≡ some t) × (type_of t.word3 ≡ stage)

abbrev pub place2 : ℕ → ℕ → ℕ
place2 n i = next_place n (next_place n i)

-- Three stages from a place on; the device waits for the last, and its doorbell is rung.
pub record Sent (n : ℕ) (dev : UsbDevice) (xhc : Xhc) (dev' : UsbDevice) (xhc' : Xhc) : Type 0 where
  pub ring : IsRing n dev'.ep0
  pub place : dev'.ep0.trb ≡ next_place n (place2 n dev.ep0.trb)
  pub first : StageAt setup_stage dev.ep0.trb dev'.ep0
  pub second : StageAt data_stage (next_place n dev.ep0.trb) dev'.ep0
  pub third : StageAt status_stage (place2 n dev.ep0.trb) dev'.ep0
  pub waits : dev'.wait_trb_type ≡ status_stage
  pub bell : xhc'.doorbells ≡ (dev.slot_id, 1) ∷ xhc.doorbells

next_place-lt : (n i : ℕ) → i < n → next_place n i < n
next_place-lt n i low = elim (Bool-cases (i + 1 == n)) [
  | inl b ↦ rw b (omega arith)
  | inr b ↦ rw b (omega (arith, ==→ne (i + 1) n b))
]

next_place-cases :
    (n i : ℕ)
    → i < n
    → ((i + 1 ≡ n) × (next_place n i ≡ 0)) ⊎ ((i + 1 < n) × (next_place n i ≡ i + 1))
next_place-cases n i low = elim (Bool-cases (i + 1 == n)) [
  | inl b ↦ inl (==→eq (i + 1) n b, rw b refl)
  | inr b ↦ inr (omega (arith, ==→ne (i + 1) n b), rw b refl)
]

next_place-ne : (n i : ℕ) → 3 ≤ n → i < n → i ≢ next_place n i
next_place-ne n i room low = λ same. elim (next_place-cases n i low) [
  | inl (last, at) ↦ absurd (omega (arith, same, at))
  | inr (more, at) ↦ absurd (omega (arith, same, at))
]

place2-ne : (n i : ℕ) → 3 ≤ n → i < n → i ≢ place2 n i
place2-ne n i room low = λ same.
    elim (next_place-cases n (next_place n i) (next_place-lt n i low)) [
      | inl (last, at) ↦ elim (next_place-cases n i low) [
        | inl (last1, at1) ↦ absurd (omega (arith, same, at, at1))
        | inr (more1, at1) ↦ absurd (omega (arith, same, at, at1))
      ]
      | inr (more, at) ↦ elim (next_place-cases n i low) [
        | inl (last1, at1) ↦ absurd (omega (arith, same, at, at1))
        | inr (more1, at1) ↦ absurd (omega (arith, same, at, at1))
      ]
    ]

written-StageAt :
    {n word0 word1 word2 flags : ℕ} {before after : Ring} (stage : ℕ)
    → Enqueued n word0 word1 word2 flags before after
    → type_of (bit_or flags 1) ≡ stage
    → StageAt stage before.trb after
written-StageAt {n} {word0} {word1} {word2} {flags} stage e is =
    (record { word0 = word0; word1 = word1; word2 = word2; word3 = bit_or flags 1 }, e.written, is)

kept-StageAt :
    {n word0 word1 word2 flags i : ℕ} {before after : Ring} (stage : ℕ)
    → Enqueued n word0 word1 word2 flags before after
    → i < n
    → i ≢ before.trb
    → StageAt stage i before
    → StageAt stage i after
kept-StageAt {i = i} stage e low ne (t, at, is) = (t, e.others i low ne ∙ at, is)

-- GET_DESCRIPTOR of an addressed device, on a ring with three places or more: the call returns,
-- whatever the request is. From the place where the ring stood there are a setup, a data and a
-- status stage, the ring stands behind them, the device waits for the status stage, and the doorbell
-- of its slot has been rung once.
pub xhc_transfer_get_descriptor-Sent :
    (n desc_type desc_index buf bfsize : ℕ) (event : Option Trb) (dev : UsbDevice) (xhc : Xhc)
    → dev.slot_state ≡ slot_addressed
    → IsRing n dev.ep0
    → 3 ≤ n
    → (dev' : UsbDevice) × (xhc' : Xhc) × (xhc_transfer_get_descriptor desc_type desc_index buf
          bfsize event dev xhc
        ≡ ok (dev', xhc'))
      × Sent n dev xhc dev' xhc'
unfolding xhc_transfer_get_descriptor setup data_in status
xhc_transfer_get_descriptor-Sent n desc_type desc_index buf bfsize event dev xhc addressed sound
      room =
    let request =
      bit_or (bit_or (u32 (desc_type * 2 ^ 24)) (desc_index * 2 ^ 16)) (bit_or 1536 128) in
    let (ring1, run1, e1) =
      enqueue-Enqueued n request (u32 (bfsize * 2 ^ 16)) 8
        (bit_or (bit_or (setup_stage * 1024) (in_data_stage * 2 ^ 16)) 64) dev.ep0 sound refl
        refl in
    let (ring2, run2, e2) =
      enqueue-Enqueued n buf 0 bfsize (bit_or (data_stage * 1024) (2 ^ 16)) ring1 e1.ring refl
        refl in
    let (ring3, run3, e3) =
      enqueue-Enqueued n 0 0 0 (bit_or (bit_or (status_stage * 1024) (0 * 2 ^ 16)) 32) ring2 e2.ring
        refl refl in
    let p = dev.ep0.trb in
    let at2 : ring2.trb ≡ place2 n p = e2.moved ∙ rw e1.moved refl in
    let low1 = next_place-lt n p sound.inside in
    (
      (submitted ring3 event dev xhc).0,
      (submitted ring3 event dev xhc).1,
      rw (addressed, run1, run2, run3) refl,
      record {
        ring = e3.ring;
        place = e3.moved ∙ rw at2 refl;
        first =
            kept-StageAt setup_stage e3 sound.inside (rw at2 (place2-ne n p room sound.inside)) (
              kept-StageAt setup_stage e2 sound.inside
                (rw e1.moved (next_place-ne n p room sound.inside))
                (written-StageAt setup_stage e1 refl));
        second =
            kept-StageAt data_stage e3 low1 (rw at2 (next_place-ne n (next_place n p) room low1))
              (rw e1.moved at (written-StageAt data_stage e2 refl));
        third = rw at2 at (written-StageAt status_stage e3 refl);
        waits = refl;
        bell = refl;
      },
    )

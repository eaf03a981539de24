-- ===== src/Xhci/Tests.antt =====
-- A ring of three places, and requests on it.
use rdix.Common.{
  ℕ, zero, suc, ◌<◌, ◌≡◌, refl, Bool, true, none, some, [], ◌∷◌, arith, Outcome, ok, ◌>>=◌,
  some-inj, get_elem?,
}
use mathlib.Core.Path.{subst}
use rdix.Xhci.{
  Trb, Ring, UsbDevice, Xhc, slot_addressed, trb_at, follow, next_trb, enqueue, xhc_cmd_enable_slot,
}
use rdix.Xhci.Requests.{xhc_transfer_get_descriptor}
use rdix.Xhci.Cycle.{Plain, IsRing, Enqueued, enqueue-Enqueued}
use rdix.Xhci.Transfers.{Sent, xhc_transfer_get_descriptor-Sent}

abbrev blank : Trb
blank = record { word0 = 0; word1 = 0; word2 = 0; word3 = 0 }

-- `(LinkTRB << 10) | 2 | 1`
abbrev link : Trb
link = record { word0 = 4096; word1 = 0; word2 = 0; word3 = 6147 }

abbrev ring : Ring
ring = record { trbs = blank ∷ blank ∷ blank ∷ link ∷ []; base = 4096; trb = 1; cycle_flag = true }

blank-Plain : Plain blank
blank-Plain = (refl, refl)

ring-IsRing : IsRing 3 ring
ring-IsRing = record {
  long = refl;
  inside = omega arith;
  plain = plain;
  link = (link, refl, refl, refl);
  cycle = refl;
}
  where
    plain : (i : ℕ) (t : Trb) → i < 3 → get_elem? ring.trbs i ≡ some t → Plain t
    plain zero t low e = subst Plain (some-inj e) blank-Plain
    plain (suc zero) t low e = subst Plain (some-inj e) blank-Plain
    plain (suc (suc zero)) t low e = subst Plain (some-inj e) blank-Plain
    plain (suc (suc (suc i))) t low e = absurd (omega arith)

enqueue-Enqueued_example :
    (after : Ring) × (enqueue 7 0 0 9216 ring ≡ ok after) × Enqueued 3 7 0 0 9216 ring after
enqueue-Enqueued_example = enqueue-Enqueued 3 7 0 0 9216 ring ring-IsRing refl refl

abbrev device : UsbDevice
device = record {
  slot_id = 1;
  slot_state = slot_addressed;
  wait_trb_type = 0;
  last_event_trb = none;
  ep0 = ring;
}

abbrev controller : Xhc
controller = record { cmd_ring = ring; max_slot = 8; doorbells = [] }

xhc_transfer_get_descriptor-Sent_example :
    (dev : UsbDevice) × (xhc : Xhc) × (xhc_transfer_get_descriptor 1 0 8192 18 none device
        controller
      ≡ ok (dev, xhc))
    × Sent 3 device controller dev xhc
xhc_transfer_get_descriptor-Sent_example =
    xhc_transfer_get_descriptor-Sent 3 1 0 8192 18 none device controller refl ring-IsRing
      (omega arith)

abbrev then_enqueue : Outcome Ring → Outcome Ring
then_enqueue run = run >>= enqueue 0 0 0 9216

abbrev place_and_flag : Outcome Ring → Outcome (ℕ × Bool)
place_and_flag run = run >>= λ r. ok (r.trb, r.cycle_flag)

-- After a whole round of the ring its cycle flag, and the lowest bits of its TRBs, are still 1.
cycle_kept : place_and_flag (then_enqueue (then_enqueue (then_enqueue (ok ring)))) ≡ ok (1, true)
unfolding enqueue next_trb trb_at follow
cycle_kept = refl

-- The slot of an event that the controller stored.
slot_enabled :
    (xhc_cmd_enable_slot (some (record blank { word3 = 83886080 })) device controller >>= λ r.
    ok (r.0.slot_id))
    ≡ ok 5
unfolding xhc_cmd_enable_slot enqueue next_trb trb_at follow
slot_enabled = refl

-- ===== src/Xhci.antt =====
-- The rings of requests to the USB controller: hd/usb3.0/ringProc.c. A ring is the memory of its
-- TRBs, and a pointer to a TRB its index there. The controller is not modelled: what it has stored for
-- the task that waits is an argument, and the doorbells that are written are listed.
pub mod Requests
pub mod Cycle
pub mod Transfers
mod Tests
use Prim.Native.Nat.{bit_or, bit_and}
use rdix.Common.{
  ℕ, ◌+◌, ◌-◌, ◌*◌, ◌/◌, ◌%◌, ◌^◌, Bool, true, false, not, Option, none, some, List, [], ◌∷◌, ◌++◌,
  Outcome, ok, panic, ◌>>=◌, ◌>>◌, assert, ltb, leb, ◌==◌, if◌then◌else◌, length, get_elem?, set,
  u32,
}

-- The four words of a TRB.
pub record Trb : Type 0 where
  pub word0 : ℕ
  pub word1 : ℕ
  pub word2 : ℕ
  pub word3 : ℕ

-- `ring_t`, with the memory at `base` that `trb` points into.
pub record Ring : Type 0 where
  pub trbs : List Trb
  pub base : ℕ
  pub trb : ℕ
  pub cycle_flag : Bool

abbrev pub trb_size : ℕ
trb_size = 16

abbrev pub link_trb : ℕ
link_trb = 6

-- `(word >> 10) & 0x3f`
abbrev pub type_of : ℕ → ℕ
type_of word = word / 1024 % 64

abbrev pub bit1 : ℕ → Bool
bit1 word = word / 2 % 2 == 1

-- `trb[3] |= 1` or `trb[3] &= ~1`
abbrev pub with_cycle : Bool → Trb → Trb
with_cycle true t = record t { word3 = t.word3 / 2 * 2 + 1 }
with_cycle false t = record t { word3 = t.word3 / 2 * 2 }

-- `~PCS` of a `_Bool`: the complement of 0 or 1 as an `int` is not 0, so it is true.
abbrev pub complement : Bool → Bool
complement b = true

unfoldable pub trb_at : ℕ → List Trb → Outcome Trb
trb_at i trbs = elim (get_elem? trbs i) [ none ↦ panic | some t ↦ ok t ]

-- A link: the pointer goes to its address. The bit that is tested is that of the TRB there.
unfoldable pub follow : Ring → ℕ → Trb → Outcome Ring
follow ring i link = do
  let trbs = set ring.trbs i (with_cycle ring.cycle_flag link)
  assert (leb ring.base link.word0)
  let to = (link.word0 - ring.base) / trb_size
  target ← trb_at to trbs
  ok (record ring {
    trbs = trbs;
    trb = to;
    cycle_flag = if bit1 target.word3 then complement ring.cycle_flag else ring.cycle_flag;
  })

unfoldable pub next_trb : Ring → Outcome Ring
next_trb ring = do
  t ← trb_at (ring.trb + 1) ring.trbs
  if type_of t.word3 == link_trb
      then follow ring (ring.trb + 1) t
      else ok (record ring { trb = ring.trb + 1 })

abbrev pub bit_of : Bool → ℕ
bit_of true = 1
bit_of false = 0

-- A TRB is written at the pointer, with the cycle flag as its lowest bit, and the pointer moves on.
unfoldable pub enqueue : ℕ → ℕ → ℕ → ℕ → Ring → Outcome Ring
enqueue word0 word1 word2 flags ring = do
  assert (ltb ring.trb (length ring.trbs))
  let t : Trb = record {
    word0 = word0;
    word1 = word1;
    word2 = word2;
    word3 = bit_or flags (bit_of ring.cycle_flag);
  }
  next_trb (record ring { trbs = set ring.trbs ring.trb t })

pub data SlotState : Type 0 where
  slot_disabled slot_enabled slot_default slot_addressed slot_configured : SlotState

-- `general_usb_dev_t` and `xhc_t`, as far as ringProc.c uses them: `ep0` is the ring of the first
-- endpoint, `doorbells` the writes to the doorbell registers, the last one first.
pub record UsbDevice : Type 0 where
  pub slot_id : ℕ
  pub slot_state : SlotState
  pub wait_trb_type : ℕ
  pub last_event_trb : Option Trb
  pub ep0 : Ring

pub record Xhc : Type 0 where
  pub cmd_ring : Ring
  pub max_slot : ℕ
  pub doorbells : List (ℕ × ℕ)

abbrev pub ring_bell : ℕ → ℕ → Xhc → Xhc
ring_bell slot value xhc = record xhc { doorbells = (slot, value) ∷ xhc.doorbells }

-- The task waits for a TRB of the type; the interrupt stores the event.
abbrev pub waits_for : ℕ → Option Trb → UsbDevice → UsbDevice
waits_for type event dev = record dev { wait_trb_type = type; last_event_trb = event }

abbrev pub get_enable_slot : ℕ
get_enable_slot = 9

abbrev pub address_device : ℕ
address_device = 11

abbrev pub configure_endpoint : ℕ
configure_endpoint = 12

unfoldable pub xhc_cmd_enable_slot : Option Trb → UsbDevice → Xhc → Outcome (UsbDevice × Xhc)
xhc_cmd_enable_slot event dev xhc = do
  ring ← enqueue 0 0 0 (get_enable_slot * 1024) xhc.cmd_ring
  let woken = waits_for get_enable_slot event dev
  elim event [
    | none ↦ panic
    | some t ↦ ok (
      record woken { slot_id = t.word3 / 2 ^ 24; slot_state = slot_enabled },
      ring_bell 0 0 (record xhc { cmd_ring = ring }),
    )
  ]

-- The guards of the other two commands: the slot, and the alignment of the context.
abbrev pub good_slot : UsbDevice → Xhc → ℕ → Bool
good_slot dev xhc context =
    if ltb dev.slot_id xhc.max_slot
    then (if ltb 0 dev.slot_id then context % 16 == 0 else false)
    else false

unfoldable pub xhc_cmd_address_device :
    ℕ → Bool → Option Trb → UsbDevice → Xhc → Outcome (UsbDevice × Xhc)
xhc_cmd_address_device context bsr event dev xhc = do
  assert (good_slot dev xhc context)
  let flags =
      bit_or (bit_or (u32 (dev.slot_id * 2 ^ 24)) (address_device * 1024)) (bit_of bsr * 512)
  ring ← enqueue context 0 0 flags xhc.cmd_ring
  ok (
    record (waits_for address_device event dev) { slot_state = slot_addressed },
    ring_bell 0 0 (record xhc { cmd_ring = ring }),
  )

unfoldable pub xhc_cmd_configure_endpoint :
    ℕ → Option Trb → UsbDevice → Xhc → Outcome (UsbDevice × Xhc)
xhc_cmd_configure_endpoint context event dev xhc = do
  assert (good_slot dev xhc context)
  let flags = bit_or (u32 (dev.slot_id * 2 ^ 24)) (configure_endpoint * 1024)
  ring ← enqueue context 0 0 flags xhc.cmd_ring
  ok (waits_for configure_endpoint event dev, ring_bell 0 0 (record xhc { cmd_ring = ring }))

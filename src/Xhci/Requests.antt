-- ===== src/Xhci/Requests.antt =====
-- The control transfers of hd/usb3.0/ringProc.c: a setup stage, a data stage or none, and a status
-- stage, each a TRB on the ring of the device's first endpoint.
use Prim.Native.Nat.{bit_or}
use rdix.Common.{ℕ, ◌*◌, ◌^◌, Bool, true, false, Option, Outcome, ok, ◌>>=◌, ◌>>◌, assert, u32}
use rdix.Xhci.{
  Trb, Ring, SlotState, slot_disabled, slot_enabled, slot_default, slot_addressed, slot_configured,
  UsbDevice, Xhc, ring_bell, waits_for, enqueue,
}

abbrev pub setup_stage : ℕ
setup_stage = 2

abbrev pub data_stage : ℕ
data_stage = 3

abbrev pub status_stage : ℕ
status_stage = 4

abbrev pub no_data_stage : ℕ
no_data_stage = 0

abbrev pub in_data_stage : ℕ
in_data_stage = 3

abbrev pub is_addressed : SlotState → Bool
is_addressed slot_disabled = false
is_addressed slot_enabled = false
is_addressed slot_default = false
is_addressed slot_addressed = true
is_addressed slot_configured = false

-- `(SetupStage << 10) | (type << 16) | (1 << 6)`
unfoldable pub setup : ℕ → ℕ → ℕ → Ring → Outcome Ring
setup word0 word1 transfer_type ring =
    enqueue word0 word1 8 (bit_or (bit_or (setup_stage * 1024) (transfer_type * 2 ^ 16)) 64) ring

-- `(DataStage << 10) | (__IN << 16)`
unfoldable pub data_in : ℕ → ℕ → Ring → Outcome Ring
data_in buf bfsize ring = enqueue buf 0 bfsize (bit_or (data_stage * 1024) (2 ^ 16)) ring

-- `(StatusStage << 10) | (direction << 16) | (1 << 5)`; the direction is 0 for out and 1 for in.
unfoldable pub status : ℕ → Ring → Outcome Ring
status direction ring =
    enqueue 0 0 0 (bit_or (bit_or (status_stage * 1024) (direction * 2 ^ 16)) 32) ring

-- The doorbell of the slot is rung, and the task waits for the status stage.
abbrev pub submitted : Ring → Option Trb → UsbDevice → Xhc → UsbDevice × Xhc
submitted ring event dev xhc =
    (waits_for status_stage event (record dev { ep0 = ring }), ring_bell dev.slot_id 1 xhc)

unfoldable pub xhc_transfer_get_descriptor :
    ℕ → ℕ → ℕ → ℕ → Option Trb → UsbDevice → Xhc → Outcome (UsbDevice × Xhc)
xhc_transfer_get_descriptor desc_type desc_index buf bfsize event dev xhc = do
  assert (is_addressed dev.slot_state)
  let request = bit_or (bit_or (u32 (desc_type * 2 ^ 24)) (desc_index * 2 ^ 16)) (bit_or 1536 128)
  ring1 ← setup request (u32 (bfsize * 2 ^ 16)) in_data_stage dev.ep0
  ring2 ← data_in buf bfsize ring1
  ring3 ← status 0 ring2
  ok (submitted ring3 event dev xhc)

unfoldable pub xhc_transfer_set_configuration :
    ℕ → Option Trb → UsbDevice → Xhc → Outcome (UsbDevice × Xhc)
xhc_transfer_set_configuration config_value event dev xhc = do
  assert (is_addressed dev.slot_state)
  ring1 ← setup (bit_or (u32 (config_value * 2 ^ 16)) 2304) 0 no_data_stage dev.ep0
  ring2 ← status 1 ring1
  ok (submitted ring2 event dev xhc)

unfoldable pub xhc_transfer_set_interface :
    ℕ → ℕ → Option Trb → UsbDevice → Xhc → Outcome (UsbDevice × Xhc)
xhc_transfer_set_interface interface alter_set event dev xhc = do
  assert (is_addressed dev.slot_state)
  ring1 ← setup (bit_or (bit_or (alter_set * 2 ^ 16) 2816) 1) interface no_data_stage dev.ep0
  ring2 ← status 1 ring1
  ok (submitted ring2 event dev xhc)

-- The requests of the class of input devices; each has a data stage, also behind a setup stage that
-- announces none.
unfoldable pub class_request :
    ℕ → ℕ → ℕ → ℕ → Option Trb → UsbDevice → Xhc → Outcome (UsbDevice × Xhc)
class_request request word1 buf bsize event dev xhc = do
  ring1 ← setup request word1 no_data_stage dev.ep0
  ring2 ← data_in buf bsize ring1
  ring3 ← status 0 ring2
  ok (submitted ring3 event dev xhc)

unfoldable pub get_idle : ℕ → ℕ → Option Trb → UsbDevice → Xhc → Outcome (UsbDevice × Xhc)
get_idle = class_request (bit_or 512 161) (2 ^ 16)

unfoldable pub get_protocol : ℕ → ℕ → Option Trb → UsbDevice → Xhc → Outcome (UsbDevice × Xhc)
get_protocol = class_request (bit_or 768 161) (2 ^ 16)

unfoldable pub get_report : ℕ → ℕ → Option Trb → UsbDevice → Xhc → Outcome (UsbDevice × Xhc)
get_report = class_request (bit_or (bit_or (2 ^ 16) 256) 161) (8 * 2 ^ 16)

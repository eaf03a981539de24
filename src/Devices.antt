-- ===== src/Devices.antt =====
-- kernel/device.c: the table of devices, and the order in which a disk's requests are served.
pub mod Elevator
mod Tests
use rdix.Common.{
  ℕ, zero, suc, ◌+◌, Bool, true, false, ◌&&◌, Option, none, some, List, [], ◌∷◌, Outcome, ok, panic,
  ◌>>=◌, ◌>>◌, assert, ltb, ◌==◌, if◌then◌else◌, get_elem?, set,
}

-- DIRECT_FORE and DIRECT_BACK
pub data Direct : Type 0 where
  direct_fore direct_back : Direct

-- `device_t` without its name and its calls. `type` is `dev_type` here.
pub record Device : Type 0 where
  pub dev_type : ℕ
  pub subtype : ℕ
  pub dev : ℕ
  pub parent : ℕ
  pub ptr : ℕ
  pub has_requests : Bool
  pub do_request : Bool
  pub req_direct : Direct

abbrev pub device_nr : ℕ
device_nr = 64

abbrev pub dev_null : ℕ
dev_null = 0

abbrev pub dev_block : ℕ
dev_block = 2

abbrev pub dev_sata_disk : ℕ
dev_sata_disk = 3

-- `get_null_device`, from place `i` on.
unfoldable pub null_from : ℕ → List Device → Outcome ℕ
null_from i [] = panic
null_from i (d ∷ ds) =
    let rest = null_from (i + 1) ds in if d.dev_type == dev_null then ok i else rest

-- the entry that `device_install` fills
abbrev pub installed : ℕ → ℕ → ℕ → ℕ → Device → Device
installed type subtype ptr parent d = record d {
  ptr = ptr;
  parent = parent;
  dev_type = type;
  subtype = subtype;
  do_request = false;
  req_direct = direct_fore;
  has_requests = type == dev_block && (subtype == dev_sata_disk);
}

unfoldable pub device_get : ℕ → List Device → Outcome Device
device_get dev ds = do
  assert (ltb dev device_nr)
  elim (get_elem? ds dev) [ none ↦ panic | some d ↦ ok d ]

unfoldable pub device_install : ℕ → ℕ → ℕ → ℕ → List Device → Outcome (ℕ × List Device)
unfolding null_from device_get
device_install type subtype ptr parent ds = do
  i ← null_from 0 ds
  d ← device_get i ds
  ok (d.dev, set ds i (installed type subtype ptr parent d))

-- `device_find`, with `x` devices of the subtype met so far.
unfoldable pub find_from : ℕ → ℕ → ℕ → List Device → Option Device
find_from subtype idx x [] = none
find_from subtype idx x (d ∷ ds) =
    let skip = find_from subtype idx x ds in
    let on = find_from subtype idx (x + 1) ds in
    if d.subtype == subtype then (if x == idx then some d else on) else skip

unfoldable pub device_find : ℕ → ℕ → List Device → Option Device
unfolding find_from
device_find subtype idx ds = find_from subtype idx 0 ds

module _ {ℓ} {A : Type ℓ} where
  -- Where `get_next_req` turns: `before` and `after` are the requests on both sides of `req` in the
  -- list, from the nearest one on.
  unfoldable pub turn : Direct → List A → List A → Direct
  turn direct_fore before [] = direct_back
  turn direct_fore before (r ∷ after) = direct_fore
  turn direct_back [] after = direct_fore
  turn direct_back (r ∷ before) after = direct_back

  unfoldable pub head : List A → Option A
  head [] = none
  head (r ∷ rs) = some r

  -- The direction, and the next request: the owner of the list's end is NULL. That the request is in
  -- the list of its device, which the code asserts, is how `before` and `after` are given.
  unfoldable pub get_next_req : Direct → List A → List A → Direct × Option A
  unfolding turn head
  get_next_req direct before after = elim (turn direct before after) [
    | direct_fore ↦ (direct_fore, head after)
    | direct_back ↦ (direct_back, head before)
  ]

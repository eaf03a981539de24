-- ===== src/Pci.antt =====
-- The scan of the PCI bus: kernel/pci.c. The configuration space is a parameter: `config` is what a
-- register of a function holds, and `bar_mask` what the register of a base address reads after all
-- its bits were written. A list of devices that is NULL is empty.
pub mod Scan
mod Tests
use rdix.Common.{
  ℕ, zero, suc, ◌+◌, ◌-◌, ◌*◌, ◌/◌, ◌%◌, ◌^◌, Bool, true, false, ◌&&◌, not, Option, none, some,
  List, [], ◌∷◌, ◌++◌, Outcome, ok, panic, ◌>>=◌, ltb, leb, ◌==◌, if◌then◌else◌,
}

abbrev pub Config : Type 0
Config = ℕ → ℕ → ℕ → ℕ → ℕ

-- `bar_entry`
pub record Bar : Type 0 where
  pub base_addr : ℕ
  pub size : ℕ
  pub kind : ℕ

-- `pci_device_t`
pub record PciDevice : Type 0 where
  pub bus : ℕ
  pub dev_num : ℕ
  pub function : ℕ
  pub vector_id : ℕ
  pub device_id : ℕ
  pub revision_id : ℕ
  pub ccode : ℕ
  pub header_type : ℕ
  pub bars : List Bar

pub record PciBus : Type 0 where
  pub bus_num : ℕ
  pub dev_list : List PciDevice

-- The address of a space of which the lowest `2 ^ bits` are flags, and its size from the mask.
abbrev pub bar_of : ℕ → ℕ → ℕ → Bar
bar_of flags first back = record {
  base_addr = first / flags * flags;
  size = (2 ^ 32 - back / flags * flags) % 2 ^ 32;
  kind = first % flags;
}

-- `get_bar_and_size`, on what the register holds and on its mask.
unfoldable pub get_bar_and_size : ℕ → ℕ → Bar
get_bar_and_size first back = if first % 2 == 1 then bar_of 4 first back else bar_of 16 first back

abbrev pub new_pci_bus : PciBus
new_pci_bus = record { bus_num = 2 ^ 32 - 1; dev_list = [] }

abbrev pub has_devices : PciBus → Bool
has_devices bus = elim bus.dev_list [ [] ↦ false | d ∷ ds ↦ true ]

-- What follows the `for` of `PCI_init`: a last bus without devices goes, if it is not the only one.
abbrev pub finish : List PciBus → PciBus → List PciBus
finish [] p = p ∷ []
finish (bus ∷ buses) p = if has_devices p then (bus ∷ buses) ++ p ∷ [] else bus ∷ buses

module _ (config bar_mask : Config) where
  -- The `for` over the base addresses, with `n` of them left.
  unfoldable pub read_bars : ℕ → ℕ → ℕ → ℕ → ℕ → List Bar
  unfolding get_bar_and_size
  read_bars zero bus dev_num function bar = []
  read_bars (suc n) bus dev_num function bar =
      let reg = 16 + bar * 4 in
      get_bar_and_size (config bus dev_num function reg) (bar_mask bus dev_num function reg)
      ∷ read_bars n bus dev_num function (bar + 1)

  -- The device of a function, none where there is none.
  unfoldable pub device_probe : ℕ → ℕ → ℕ → List PciDevice
  unfolding read_bars
  device_probe bus dev_num function =
      let ids = config bus dev_num function 0 in
      let class_word = config bus dev_num function 8 in
      if ids % 2 ^ 16 == 65535
      then []
      else (record {
        bus = bus;
        dev_num = dev_num;
        function = function;
        vector_id = ids % 2 ^ 16;
        device_id = ids / 2 ^ 16 % 2 ^ 16;
        revision_id = class_word % 2 ^ 8;
        ccode = class_word / 2 ^ 8 % 2 ^ 24;
        header_type = config bus dev_num function 12 / 2 ^ 16 % 2 ^ 8;
        bars = read_bars 6 bus dev_num function 0;
      }
          ∷ [])

  -- The `for` over the functions of a device, with `n` of them left.
  unfoldable pub probe_functions : ℕ → ℕ → ℕ → ℕ → List PciDevice
  unfolding device_probe
  probe_functions zero bus dev_num function = []
  probe_functions (suc n) bus dev_num function =
      device_probe bus dev_num function ++ probe_functions n bus dev_num (function + 1)

  -- A device of several functions has bit 7 of its header type set.
  abbrev pub with_functions : ℕ → ℕ → List PciDevice → List PciDevice
  with_functions bus dev_num [] = []
  with_functions bus dev_num (device ∷ rest) =
      if device.header_type / 2 ^ 7 % 2 == 1
      then device ∷ probe_functions 7 bus dev_num 1
      else device ∷ []

  -- The `for` of `get_all_device`, with `n` devices left.
  unfoldable pub get_all_device : ℕ → ℕ → ℕ → List PciDevice
  unfolding device_probe probe_functions
  get_all_device zero bus dev_num = []
  get_all_device (suc n) bus dev_num =
      with_functions bus dev_num (device_probe bus dev_num 0) ++ get_all_device n bus (dev_num + 1)

  -- The `for` of `PCI_init`, with `n` buses left: the buses before `p`, and `p`.
  unfoldable pub init_from : ℕ → ℕ → List PciBus → PciBus → List PciBus
  unfolding get_all_device
  init_from zero i buses p = finish buses p
  init_from (suc n) i buses p =
      let q : PciBus = record { bus_num = i; dev_list = p.dev_list ++ get_all_device 32 i 0 } in
      let on = init_from n (i + 1) (buses ++ q ∷ []) new_pci_bus in
      let same = init_from n (i + 1) buses q in if has_devices q && ltb i 255 then on else same

  unfoldable pub pci_init : List PciBus
  unfolding init_from
  pci_init = init_from 256 0 [] new_pci_bus

unfoldable pub find_class : ℕ → List PciDevice → Option PciDevice
find_class cc [] = none
find_class cc (device ∷ devices) =
    let rest = find_class cc devices in if device.ccode == cc then some device else rest

-- The list of a bus without devices is NULL, and its end is read all the same.
unfoldable pub get_device_info : ℕ → List PciBus → Outcome (Option PciDevice)
unfolding find_class
get_device_info cc [] = ok none
get_device_info cc (bus ∷ buses) = elim bus.dev_list [
  | [] ↦ panic
  | d ∷ ds ↦ elim (find_class cc (d ∷ ds)) [
    | some device ↦ ok (some device)
    | none ↦ get_device_info cc buses
  ]
]

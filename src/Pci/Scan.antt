-- ===== src/Pci/Scan.antt =====
-- What a search by class finds: PCI_init and get_device_info of kernel/pci.c.
use rdix.Common.{
  ℕ, zero, suc, ◌+◌, ◌≡◌, ◌⊎◌, true, Option, none, some, List, [], ◌∷◌, ◌++◌, Outcome, panic,
}
use rdix.Pci.{Config, PciDevice, PciBus, get_all_device, has_devices, find_class}

abbrev pub flatten : List PciBus → List PciDevice
flatten [] = []
flatten (bus ∷ buses) = bus.dev_list ++ flatten buses

abbrev pub Full : List PciBus → Type 0
Full [] = Unit {0}
Full (bus ∷ buses) = (has_devices bus ≡ true) × Full buses

module _ (config bar_mask : Config) where
  -- The devices of `n` buses from bus `i` on, in the order of the scan.
  abbrev pub devices_from : ℕ → ℕ → List PciDevice
  devices_from zero i = []
  devices_from (suc n) i = get_all_device config bar_mask 32 i 0 ++ devices_from n (i + 1)

  -- A list of buses that holds the devices: each bus has one, or there is none at all.
  abbrev pub Holds : List PciDevice → List PciBus → Type 0
  Holds devices buses =
      (first : PciBus) × (rest : List PciBus) × (buses ≡ first ∷ rest)
      × (flatten buses ≡ devices)
      × (Full buses ⊎ (flatten buses ≡ []))

abbrev pub or_search : ℕ → List PciDevice → Option PciDevice → Option PciDevice
or_search cc devices none = find_class cc devices
or_search cc devices (some device) = some device

-- no device at all
abbrev pub stop_if_empty : List PciDevice → Outcome (Option PciDevice) → Outcome (Option PciDevice)
stop_if_empty [] search = panic
stop_if_empty (d ∷ ds) search = search

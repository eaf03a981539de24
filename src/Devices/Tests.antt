-- ===== src/Devices/Tests.antt =====
-- Runs of the device table, and a concrete instance of the elevator.
use rdix.Common.{
  ℕ, ◌≡◌, refl, true, false, some, List, [], ◌∷◌, arith, Outcome, ok, panic, ◌>>=◌, Option,
}
use rdix.Devices.{
  Device, direct_fore, direct_back, null_from, device_get, device_install, device_find, find_from,
  dev_block, dev_sata_disk,
}
use rdix.Devices.Elevator.{served, sweep, served-sweep}

-- The disk serves sector 50, on its way up.
served-sweep_example :
    served {A = ℕ} 4 direct_fore (30 ∷ 10 ∷ []) (60 ∷ 90 ∷ [])
    ≡ sweep {A = ℕ} direct_fore (30 ∷ 10 ∷ []) (60 ∷ 90 ∷ [])
served-sweep_example =
    served-sweep {A = ℕ} 4 direct_fore (30 ∷ 10 ∷ []) (60 ∷ 90 ∷ []) (omega arith)

abbrev no_device : ℕ → Device
no_device i = record {
  dev_type = 0;
  subtype = 0;
  dev = i;
  parent = 0;
  ptr = 0;
  has_requests = false;
  do_request = false;
  req_direct = direct_back;
}

abbrev shown : Outcome (ℕ × List Device) → Outcome (ℕ × Option Device)
shown run = run >>= λ r. ok (r.0, device_find dev_sata_disk 0 r.1)

-- A disk is installed at the first free place, and found.
disk_installed :
    shown (device_install dev_block dev_sata_disk 77 0 (no_device 0 ∷ no_device 1 ∷ []))
    ≡ ok (
      0,
      some (record (no_device 0) {
        dev_type = dev_block;
        subtype = dev_sata_disk;
        ptr = 77;
        has_requests = true;
        req_direct = direct_fore;
      }),
    )
unfolding device_install null_from device_get device_find find_from
disk_installed = refl

no_place : device_install dev_block dev_sata_disk 77 0 [] ≡ panic
unfolding device_install null_from
no_place = refl

-- ===== src/Pci/Tests.antt =====
-- A bus with two devices, one of them with two functions.
use rdix.Common.{◌≡◌, refl, ◌&&◌, ◌==◌, if◌then◌else◌}
use rdix.Pci.{Config, get_bar_and_size}

-- Device 2 of bus 0 has class 1 in function 0 and class 2 in function 3, and says that it has several.
abbrev registers : Config
registers bus dev_num function reg =
    if bus == 0 && dev_num == 2 && (function == 0)
    then (if reg == 12 then 8388608 else 256)
    else if bus == 0 && dev_num == 2 && (function == 3)
    then 512
    else 4294967295

abbrev masks : Config
masks bus dev_num function reg = 4294963200

-- a base address in memory, of a page
page_bar :
    get_bar_and_size 4026531848 4294963208
    ≡ record { base_addr = 4026531840; size = 4096; kind = 8 }
unfolding get_bar_and_size
page_bar = refl

-- ports
port_bar : get_bar_and_size 49153 4294967265 ≡ record { base_addr = 49152; size = 32; kind = 1 }
unfolding get_bar_and_size
port_bar = refl

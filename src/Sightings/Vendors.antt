-- ===== src/Sightings/Vendors.antt =====
-- The curated OUI table, internal/sightings/oui.go.
use pxe_beacon.Base.{
  [], ◌∷◌, ltb, if◌then◌else◌, length, take, Text, bytes, Map, lookup, replace_byte, to_lower,
}
use pxe_beacon.InstallLog.{or_nil}

unfoldable pub oui_vendors : Map Text
oui_vendors =
    (bytes "dc:a6:32", bytes "Raspberry Pi")
    ∷ (bytes "e4:5f:01", bytes "Raspberry Pi")
    ∷ (bytes "b8:27:eb", bytes "Raspberry Pi")
    ∷ (bytes "28:cd:c1", bytes "Raspberry Pi")
    ∷ (bytes "00:14:22", bytes "Dell")
    ∷ (bytes "18:66:da", bytes "Dell")
    ∷ (bytes "f8:bc:12", bytes "Dell")
    ∷ (bytes "d0:67:e5", bytes "Dell")
    ∷ (bytes "b0:83:fe", bytes "Dell")
    ∷ (bytes "00:25:b3", bytes "HP")
    ∷ (bytes "3c:d9:2b", bytes "HPE")
    ∷ (bytes "98:f2:b3", bytes "HPE")
    ∷ (bytes "a0:b3:cc", bytes "HPE")
    ∷ (bytes "00:25:90", bytes "Supermicro")
    ∷ (bytes "0c:c4:7a", bytes "Supermicro")
    ∷ (bytes "3c:ec:ef", bytes "Supermicro")
    ∷ (bytes "ac:1f:6b", bytes "Supermicro")
    ∷ (bytes "00:21:cc", bytes "Lenovo")
    ∷ (bytes "e8:6a:64", bytes "Lenovo")
    ∷ (bytes "70:5a:0f", bytes "Lenovo")
    ∷ (bytes "00:1b:21", bytes "Intel")
    ∷ (bytes "94:c6:91", bytes "Intel")
    ∷ (bytes "a4:bf:01", bytes "Intel")
    ∷ (bytes "00:25:b5", bytes "Cisco UCS")
    ∷ (bytes "00:0c:29", bytes "VMware")
    ∷ (bytes "00:50:56", bytes "VMware")
    ∷ (bytes "00:05:69", bytes "VMware")
    ∷ (bytes "52:54:00", bytes "QEMU/KVM")
    ∷ (bytes "08:00:27", bytes "VirtualBox")
    ∷ []

unfoldable pub vendor_for_mac : Text → Text
vendor_for_mac mac =
    let m = to_lower (replace_byte b'-' b':' mac) in
    if ltb (length m) 8 then [] else or_nil (lookup (take 8 m) oui_vendors)

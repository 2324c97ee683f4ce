-- ===== src/Fleet/Validate.antt =====
-- validateProfile of internal/fleet/fleet.go.
use pxe_beacon.Base.{Bool, false, ◌||◌, Option, none, some, if◌then◌else◌, is_empty, Text}
use pxe_beacon.Fleet.{
  Profile, Disk, FleetError, no_ipxe_script, missing_file, defines_own_phone_home, is_text,
}
use pxe_beacon.Fleet.PhoneHome.{defines_phone_home}

-- `if err := first; err != nil { return err }` before the rest
abbrev pub or_else : Option FleetError → Option FleetError → Option FleetError
or_else none rest = rest
or_else (some e) rest = some e

unfoldable pub check_file : Disk → Text → Option FleetError
check_file disk file = if disk.exists file then none else some (missing_file file)

-- A file that is optional, but must be there when it is set.
unfoldable pub check_optional : Disk → Text → Option FleetError
check_optional disk file = if is_empty file then none else check_file disk file

-- The switch over the boot target.
unfoldable pub check_target : Disk → Profile → Option FleetError
check_target disk p =
    if is_text p.boot "custom"
    then (if is_empty p.ipxe_script then some no_ipxe_script else check_file disk p.ipxe_script)
    else if is_text p.boot "ubuntu-22.04" || is_text p.boot "ubuntu-24.04"
    then check_optional disk p.cloud_init
    else if is_text p.boot "debian-12" || is_text p.boot "debian-13"
    then or_else (check_optional disk p.preseed) (check_optional disk p.cloud_init)
    else if is_text p.boot "rocky-9" || is_text p.boot "alma-9"
    then or_else (check_optional disk p.kickstart) (check_optional disk p.cloud_init)
    else none

content_defines : Option Text → Bool
content_defines none = false
content_defines (some b) = defines_phone_home b

-- `cloudInitDefinesPhoneHome`
unfoldable pub file_defines_phone_home : Disk → Text → Bool
unfolding content_defines
file_defines_phone_home disk file = content_defines (disk.read file)

unfoldable pub check_phone_home : Disk → Profile → Option FleetError
check_phone_home disk p =
    if is_empty p.cloud_init
    then none
    else if file_defines_phone_home disk p.cloud_init
    then some (defines_own_phone_home p.cloud_init)
    else none

-- `none` where the source returns a nil error.
unfoldable pub validate_profile : Disk → Profile → Option FleetError
validate_profile disk p =
    or_else (check_target disk p) (or_else (check_optional disk p.rescue) (check_phone_home disk p))

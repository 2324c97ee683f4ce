-- ===== src/FilePaths/Tests.antt =====
-- Runs of Clean, Join and Rel.
use pxe_beacon.Base.{◌≡◌, refl, some, bytes}
use pxe_beacon.FilePaths.{path_code, clean, join, rel}

cleaned : clean (bytes "/etc//pxe/../fleet/./x") ≡ bytes "/etc/fleet/x"
unfolding path_code
cleaned = refl

joined : join (bytes "/etc/pxe") (bytes "../a.yaml") ≡ bytes "/etc/a.yaml"
unfolding path_code
joined = refl

relative : rel (bytes "/etc/pxe") (bytes "/etc/pxe/cfg/a.yaml") ≡ some (bytes "cfg/a.yaml")
unfolding path_code
relative = refl

outside : rel (bytes "/etc/pxe") (bytes "/srv/a.yaml") ≡ some (bytes "../../srv/a.yaml")
unfolding path_code
outside = refl

-- ===== src/ProxyDhcp/Arches.antt =====
-- The table of internal/proxydhcp/arch.go.
use Prim.Native.String.{String}
use pxe_beacon.Base.{Bool, true, false, Option, none, some, List, [], ◌∷◌, Text, bytes}
use pxe_beacon.ProxyDhcp.{
  Arch, intel_x86pc, efi_ia32, efi_x86_64, efi_arm64, efi_x86_64_http, efi_arm64_http, other_arch,
  Transport, transport_tftp, transport_http,
}

-- `assets.IPXEKind`, as far as the table uses it
pub data IpxeKind : Type 0 where
  legacy_bios snp_only arm64 : IpxeKind

pub record ArchProfile : Type 0 where
  pub arch : Arch
  pub transport : Transport
  pub ipxe_kind : IpxeKind
  pub boot_file : Text

abbrev row : Arch → Transport → IpxeKind → String → ArchProfile
row a transport kind file = record {
  arch = a;
  transport = transport;
  ipxe_kind = kind;
  boot_file = bytes file;
}

abbrev x86_64_row : ArchProfile
x86_64_row = row efi_x86_64 transport_tftp snp_only "snponly.efi"

-- `archTable`
unfoldable pub arch_table : Arch → Option ArchProfile
arch_table intel_x86pc = some (row intel_x86pc transport_tftp legacy_bios "undionly.kpxe")
arch_table efi_x86_64 = some x86_64_row
arch_table efi_arm64 = some (row efi_arm64 transport_tftp arm64 "ipxe-arm64.efi")
arch_table efi_x86_64_http = some (row efi_x86_64_http transport_http snp_only "snponly.efi")
arch_table efi_arm64_http = some (row efi_arm64_http transport_http arm64 "ipxe-arm64.efi")
arch_table efi_ia32 = some (row efi_ia32 transport_tftp snp_only "snponly.efi")
arch_table (other_arch n) = none

abbrev pub profile_or_default : Option ArchProfile → ArchProfile × Bool
profile_or_default none = (x86_64_row, false)
profile_or_default (some p) = (p, true)

-- `LookupArch`
unfoldable pub lookup_arch : Arch → ArchProfile × Bool
unfolding arch_table
lookup_arch a = profile_or_default (arch_table a)

-- `ArchLabel`; `arch_string` is how the library prints a code.
unfoldable pub arch_label : (Arch → Text) → Arch → Text
arch_label arch_string intel_x86pc = bytes "x86 BIOS"
arch_label arch_string efi_x86_64 = bytes "x86_64 UEFI"
arch_label arch_string efi_x86_64_http = bytes "x86_64 UEFI"
arch_label arch_string efi_arm64 = bytes "arm64 UEFI"
arch_label arch_string efi_arm64_http = bytes "arm64 UEFI"
arch_label arch_string efi_ia32 = bytes "x86 UEFI (IA32)"
arch_label arch_string (other_arch n) = arch_string (other_arch n)

-- `KnownArchs`, in an order that Go leaves open
abbrev pub known_archs : List Arch
known_archs =
    intel_x86pc ∷ efi_x86_64 ∷ efi_arm64 ∷ efi_x86_64_http ∷ efi_arm64_http ∷ efi_ia32 ∷ []

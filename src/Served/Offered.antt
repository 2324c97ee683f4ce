-- ===== src/Served/Offered.antt =====
-- The boot files that internal/proxydhcp/proxydhcp.go offers, and what internal/tftp/tftp.go and
-- internal/httpd/httpd.go serve under their names.
use pxe_beacon.Base.{ℕ, ◌≡◌, true, false, Option, Text}
use pxe_beacon.ProxyDhcp.{
  Request, Ip, Config, Stage, ipxe_script, firmware_tftp, firmware_http, Reply,
}
use pxe_beacon.ProxyDhcp.Arches as Arches
use pxe_beacon.ProxyDhcp.Arches.{lookup_arch}
use pxe_beacon.ProxyDhcp.Offer.{http_url, select_arch}
use pxe_beacon.Tftp.{IpxeKind, snp_only, arm64, legacy_bios, read_handler}
use pxe_beacon.Assets.{read_ipxe}
use pxe_beacon.Served.{Response, serve_ipxe, handle_file, handle_script}

-- The binary that the table names.
unfoldable pub binary : Arches.IpxeKind → IpxeKind
binary Arches.legacy_bios = legacy_bios
binary Arches.snp_only = snp_only
binary Arches.arm64 = arm64

-- The binary for the first architecture that the client names.
unfoldable pub binary_for : Request → IpxeKind
binary_for req = binary (lookup_arch (select_arch req.client_arch)).0.ipxe_kind

-- `embedded` reads an embedded file, `autoexec` is the script that TFTP serves, and `dispatch` and
-- `legacy` are the scripts of the HTTP server.
module _ (embedded : Text → Option Text) (autoexec : Option Text) (advertised_ip chain_url : Text)
    (dispatch legacy : Option Text) (cfg : Config) (ip : Ip) (port : ℕ) (req : Request) where
  -- What the HTTP server answers a GET request with.
  abbrev pub http_get : Text → Response
  http_get path =
      handle_file embedded cfg.ipxe_script_path advertised_ip chain_url dispatch legacy false path

  -- What a client that follows the offer `r` is sent: the binary of the table for its architecture,
  -- by TFTP or HTTP, or the script, by HTTP.
  abbrev pub IsServed : Stage → Reply → Type 0
  IsServed firmware_tftp r =
      (read_handler autoexec (read_ipxe embedded) true r.boot_file_name).content
      ≡ read_ipxe embedded (binary_for req)
  IsServed firmware_http r =
      (path : Text) × (r.boot_file_name ≡ http_url ip port path)
      × (http_get path ≡ serve_ipxe embedded (binary_for req) false)
  IsServed ipxe_script r =
      (path : Text) × (r.boot_file_name ≡ http_url ip port path)
      × (http_get path ≡ handle_script dispatch legacy false)
  IsServed stage r = ⊥

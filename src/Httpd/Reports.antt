-- ===== src/Httpd/Reports.antt =====
-- The rows of /status.json of internal/httpd/httpd.go against the pages of internal/httpd/api.go.
use pxe_beacon.Base.{
  ℕ, zero, suc, ◌≡◌, refl, ap, ◌∙◌, true, false, Option, none, some, List, [], ◌∷◌, map, length,
  take, drop, if◌then◌else◌, is_some, Bool, ◌&&◌, ℤ, Text, Result, ok, err,
}
use pxe_beacon.Fleet.{Fleet}
use pxe_beacon.Fleet.Saving.{list_machines}
use pxe_beacon.Httpd.{Server, Response, fleet_not_loaded, paging_invalid}
use pxe_beacon.Httpd.Paging.{
  MachineView, build_machine_view, Listing, listing, refused, window, of_fleet, page_of,
  parse_paging, api_list,
}
use pxe_beacon.Httpd.Pages.{window_lem}
use pxe_beacon.Httpd.Reading.{StatusReport, status_report, status_of, status_json}

module _ {ℓ κ} {A : Type ℓ} {B : Type κ} (f : A → B) where
  map-take : (n : ℕ) (xs : List A) → map f (take n xs) ≡ take n (map f xs)
  map-take zero xs = refl
  map-take (suc n) [] = refl
  map-take (suc n) (x ∷ xs) = ap (λ (r : List B). f x ∷ r) (map-take n xs)

  map-drop : (n : ℕ) (xs : List A) → map f (drop n xs) ≡ drop n (map f xs)
  map-drop zero xs = refl
  map-drop (suc n) [] = refl
  map-drop (suc n) (x ∷ xs) = map-drop n xs

  length-map : (xs : List A) → length (map f xs) ≡ length xs
  length-map [] = refl
  length-map (x ∷ xs) = ap suc (length-map xs)

-- What a page shows of a report.
abbrev pub page_of_report : Result Response StatusReport → Option (ℕ × ℕ) → Listing MachineView
page_of_report (err e) paging = refused 503 fleet_not_loaded
page_of_report (ok report) none = refused 400 paging_invalid
page_of_report (ok report) (some (limit, offset)) =
    listing (length report.machines) limit offset (take limit (drop offset report.machines))

page_of_fleet :
    (advertised_ip : Text) (http_port : ℤ) (s : Server) (now : ℕ) (f : Fleet)
    (paging : Option (ℕ × ℕ))
    → page_of (build_machine_view s now) (list_machines f) paging
      ≡ page_of_report (ok (status_report advertised_ip http_port s now f)) paging
unfolding status_report
page_of_fleet advertised_ip http_port s now f none = refl
page_of_fleet advertised_ip http_port s now f (some (limit, offset)) =
    let view = build_machine_view s now in
    let xs = list_machines f in
    let rows : map view (window limit offset xs) ≡ take limit (drop offset (map view xs)) =
      ap (map view) (window_lem limit offset xs)
      ∙ map-take view limit (drop offset xs)
      ∙ ap (take limit) (map-drop view offset xs) in
    rw (rows, length-map view xs) refl

ready_page :
    (advertised_ip : Text) (http_port : ℤ) (s : Server) (now : ℕ) (paging : Option (ℕ × ℕ))
    (o : Option Fleet) (tracked : Bool)
    → (if is_some o && tracked
        then page_of (build_machine_view s now) (of_fleet o) paging
        else Listing.refused 503 fleet_not_loaded)
      ≡ page_of_report
          (if is_some o && tracked
            then status_of advertised_ip http_port s now o
            else err (Response.refused 503 fleet_not_loaded))
          paging
unfolding status_of
ready_page advertised_ip http_port s now paging none tracked = refl
ready_page advertised_ip http_port s now paging (some f) false = refl
ready_page advertised_ip http_port s now paging (some f) true =
    page_of_fleet advertised_ip http_port s now f paging

-- A page of the list of machines shows that part of the rows of /status.json which its offset and
-- its limit name, and counts all of them; paging parameters that are not accepted are an error, and
-- where /status.json is refused, the list is refused too.
pub api_list-status_json :
    (advertised_ip : Text) (http_port : ℤ) (s : Server) (now : ℕ) (limit offset : Text)
    → api_list s now limit offset
      ≡ page_of_report (status_json advertised_ip http_port s now) (parse_paging limit offset)
unfolding api_list status_json
api_list-status_json advertised_ip http_port s now limit offset =
    ready_page advertised_ip http_port s now (parse_paging limit offset) s.fleet (is_some s.tracker)

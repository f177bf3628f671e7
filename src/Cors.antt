-- ===== src/Cors.antt =====
-- src/common/security/cors.config.ts: which origins may call the service from a browser.
pub mod Origins
use Prim.Native.String
use gracon_admin_service.Prelude.{
  String, Bool, true, false, ◌||◌, Option, none, some, List, [], ◌∷◌, ◌++◌, ◌==◌, code, eqb,
  if◌then◌else◌, or_else, trim,
}

abbrev pub split_first : String → List String → List String
split_first c [] = c ∷ []
split_first c (piece ∷ pieces) = String.◌++◌ c piece ∷ pieces

-- `value.split(',')`
unfoldable pub split_comma : String → List String
split_comma String.[] = "" ∷ []
split_comma (String.◌∷◌ c s) =
    let rest = split_comma s in
    if eqb (code c) b',' then "" ∷ rest else split_first (String.◌∷◌ c "") rest

-- `.map(trim).filter(Boolean)`
unfoldable pub trimmed_origins : List String → List String
trimmed_origins [] = []
trimmed_origins (piece ∷ pieces) =
    let rest = trimmed_origins pieces in if trim piece == "" then rest else trim piece ∷ rest

abbrev pub pieces_of : String → Option String → List String
pieces_of admin_frontend_url frontend_urls =
    split_comma admin_frontend_url ++ split_comma (or_else frontend_urls "")

unfoldable pub parse_allowed_origins : String → Option String → List String
parse_allowed_origins admin_frontend_url frontend_urls =
    trimmed_origins (pieces_of admin_frontend_url frontend_urls)

abbrev pub includes : List String → String → Bool
includes [] origin = false
includes (x ∷ xs) origin = x == origin || includes xs origin

abbrev allowed_from : List String → Option String → Bool
allowed_from origins none = true
allowed_from origins (some origin) = origin == "" || includes origins origin

-- Whether the callback lets the request through; it is given an error else.
unfoldable pub origin_allowed : String → Option String → Option String → Bool
origin_allowed admin_frontend_url frontend_urls origin =
    allowed_from (parse_allowed_origins admin_frontend_url frontend_urls) origin

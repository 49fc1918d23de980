-- ===== src/Compose/Examples.antt =====
-- A compose file of two services: tests and instances.
use nazg.Base.{◌≡◌, ◌↔◌, refl, Option, none, some, List, [], ◌∷◌, ◌++◌, Bytes, codes}
use mathlib.Core.List.Memᴰ.{Memᴰ}
use nazg.Base.Dict.{keys}
use nazg.Base.Getline.{split_lines}
use nazg.Compose.Lines.{
  trim, get_indent_level, extract_key, extract_value, is_list_item, extract_list_item, is_skipped,
  is_skipped_raw, ends_block, each_line, each_block,
}
use nazg.Compose.Parse.{
  ComposeService, ComposeFile, parse, parse_lines, parse_top, parse_service, parse_service_key,
  new_service, new_file,
}
use nazg.Compose.Parse.Totality.{parse_total}
use nazg.Compose.Dependencies.{extract_dependencies, mode_dependency, network_dependency}
use nazg.Compose.Dependencies.Reasons.{Reason, extract_dependencies-Reason}

abbrev line : Bytes → Bytes
line s = s ++ b'\n' ∷ []

abbrev text : Bytes
text =
    line (codes "services:")
    ++ line (codes "  vpn:")
    ++ line (codes "    image: gluetun")
    ++ line (codes "  app:")
    ++ line (codes "    depends_on:")
    ++ line (codes "      - vpn")

abbrev services_of : Option (ComposeFile × List Bytes) → List Bytes
services_of none = []
services_of (some (compose, rest)) = keys compose.services

parse-text : services_of (parse text) ≡ codes "app" ∷ codes "vpn" ∷ []
unfolding parse parse_lines parse_top parse_service parse_service_key split_lines trim
    get_indent_level extract_key extract_value is_list_item extract_list_item is_skipped
    is_skipped_raw ends_block each_line each_block
parse-text = refl

parse_total_example : (compose : ComposeFile) × (parse text ≡ some (compose, []))
parse_total_example = parse_total text

abbrev sharing : ComposeService
sharing = record new_service { networks = codes "web" ∷ [] }

abbrev joining : ComposeService
joining = record sharing { network_mode = codes "service:vpn" }

abbrev compose : ComposeFile
compose = record new_file { services = (codes "app", joining) ∷ (codes "vpn", sharing) ∷ [] }

extract_dependencies_test :
    extract_dependencies compose
    ≡ mode_dependency (codes "app") (codes "vpn")
      ∷ network_dependency (codes "app") joining (codes "web") (codes "vpn")
      ∷ network_dependency (codes "vpn") sharing (codes "web") (codes "app")
      ∷ []
unfolding extract_dependencies
extract_dependencies_test = refl

extract_dependencies-Reason_example :
    Memᴰ (mode_dependency (codes "app") (codes "vpn")) (extract_dependencies compose)
    ↔ Reason compose.services (mode_dependency (codes "app") (codes "vpn"))
extract_dependencies-Reason_example =
    extract_dependencies-Reason compose (mode_dependency (codes "app") (codes "vpn"))

abbrev commented : Bytes
commented =
    line (codes "services:")
    ++ line (codes "  # the vpn")
    ++ line (codes "  vpn:")
    ++ line (codes "    image: gluetun")

-- A comment that is indented below `services:` is read as a service.
indented_comment : services_of (parse commented) ≡ codes "# the vpn" ∷ codes "vpn" ∷ []
unfolding parse parse_lines parse_top parse_service parse_service_key split_lines trim
    get_indent_level extract_key extract_value is_list_item extract_list_item is_skipped
    is_skipped_raw ends_block each_line each_block
indented_comment = refl

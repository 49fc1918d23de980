-- ===== src/Compose/Parse.antt =====
-- modules/docker_monitor/src/compose_parser.cpp: the records of a compose file and the functions
-- that read its sections. Every loop has as much fuel as there are lines; `none` is fuel run out.
pub mod Totality
use nazg.Base.{
  ℕ, Bool, true, false, not, Option, none, some, List, [], ◌∷◌, ◌++◌, ◌&&◌, Bytes, codes, ◌=ᵇ◌,
  ◌==◌, ◌||◌, length, is_empty, cut_at, if◌then◌else◌,
}
use nazg.Base.Dict.{Dict, insert}
use nazg.Base.Getline.{split_lines}
use nazg.Compose.Lines.{
  get_indent_level, extract_key, extract_value, is_list_item, extract_list_item, is_skipped,
  is_skipped_raw, ends_block, each_line, each_block,
}

pub record ComposeService : Type 0 where
  pub name : Bytes
  pub image : Bytes
  pub container_name : Bytes
  pub depends_on : List Bytes
  pub network_mode : Bytes
  pub networks : List Bytes
  pub network_static_ips : Dict Bytes
  pub volumes : List Bytes
  pub environment : Dict Bytes
  pub restart_policy : Bytes
  pub privileged : Bool

abbrev pub new_service : ComposeService
new_service = record {
  name = [];
  image = [];
  container_name = [];
  depends_on = [];
  network_mode = [];
  networks = [];
  network_static_ips = [];
  volumes = [];
  environment = [];
  restart_policy = [];
  privileged = false;
}

-- Without `ipam_config`, which the parser never fills.
pub record ComposeNetwork : Type 0 where
  pub name : Bytes
  pub driver : Bytes
  pub external : Bool

pub record ComposeFile : Type 0 where
  pub version : Bytes
  pub services : Dict ComposeService
  pub networks : Dict ComposeNetwork
  pub volumes : Dict Bytes

-- The loop under one network of a service, which looks for its address.
abbrev add_address : Bytes → ComposeService → Bytes → ComposeService
add_address network service line =
    let key = extract_key line in
    if key =ᵇ codes "ipv4_address" || key =ᵇ codes "ipv6_address"
    then record service {
      network_static_ips = insert network (extract_value line) service.network_static_ips;
    }
    else service

abbrev pub add_network : ComposeService → Bytes → List Bytes → Option (ComposeService × List Bytes)
add_network service line rest =
    if is_list_item line
    then some (record service { networks = service.networks ++ extract_list_item line ∷ [] }, rest)
    else some (
        each_line is_skipped_raw (ends_block (get_indent_level line))
          (add_address (extract_key line))
          (record service { networks = service.networks ++ extract_key line ∷ [] }) rest)

-- `line` is the line of the key `networks`, and `rest` what stands behind it.
unfoldable pub parse_service_networks :
    Bytes → List Bytes → ComposeService → Option (ComposeService × List Bytes)
parse_service_networks line rest service =
    each_block (length rest) is_skipped_raw (ends_block (get_indent_level line)) add_network service
      rest

abbrev pub add_dependency : ComposeService → Bytes → ComposeService
add_dependency service line =
    let dep = extract_list_item line in
    if is_list_item line && not (is_empty dep)
    then record service { depends_on = service.depends_on ++ dep ∷ [] }
    else service

abbrev pub add_volume : ComposeService → Bytes → ComposeService
add_volume service line =
    let volume = extract_list_item line in
    if is_list_item line && not (is_empty volume)
    then record service { volumes = service.volumes ++ volume ∷ [] }
    else service

abbrev set_variable : ComposeService → Option (Bytes × Bytes) → ComposeService
set_variable service none = service
set_variable service (some (key, value)) = record service {
  environment = insert key value service.environment;
}

abbrev pub add_variable : ComposeService → Bytes → ComposeService
add_variable service line =
    if is_list_item line
    then set_variable service (cut_at b'=' (extract_list_item line))
    else set_variable service (some (extract_key line, extract_value line))

-- The body of the loop of `parse_service`: one key with its block.
unfoldable pub parse_service_key :
    ComposeService → Bytes → List Bytes → Option (ComposeService × List Bytes)
parse_service_key service line rest =
    let key = extract_key line in
    let value = extract_value line in
    let block = ends_block (get_indent_level line) in
    if key =ᵇ codes "image"
    then some (record service { image = value }, rest)
    else if key =ᵇ codes "container_name"
    then some (record service { container_name = value }, rest)
    else if key =ᵇ codes "network_mode"
    then some (record service { network_mode = value }, rest)
    else if key =ᵇ codes "restart"
    then some (record service { restart_policy = value }, rest)
    else if key =ᵇ codes "privileged"
    then some (record service { privileged = value =ᵇ codes "true" }, rest)
    else if key =ᵇ codes "depends_on"
    then some (each_line is_skipped_raw block add_dependency service rest)
    else if key =ᵇ codes "networks"
    then parse_service_networks line rest service
    else if key =ᵇ codes "volumes"
    then some (each_line is_skipped_raw block add_volume service rest)
    else if key =ᵇ codes "environment"
    then some (each_line is_skipped_raw block add_variable service rest)
    else some (each_line is_skipped_raw block (λ s l. s) service rest)

unfoldable pub parse_service :
    Bytes → Bytes → List Bytes → ComposeService → Option (ComposeService × List Bytes)
parse_service service_name line rest service =
    each_block (length rest) is_skipped (ends_block (get_indent_level line)) parse_service_key
      (record service { name = service_name }) rest

abbrev pub set_network_field : ComposeNetwork → Bytes → ComposeNetwork
set_network_field network line =
    let key = extract_key line in
    if key =ᵇ codes "driver"
    then record network { driver = extract_value line }
    else if key =ᵇ codes "external"
    then record network { external = extract_value line =ᵇ codes "true" }
    else network

-- The body of the loop of `parse_networks_section`.
abbrev pub parse_network :
    Dict ComposeNetwork → Bytes → List Bytes → Option (Dict ComposeNetwork × List Bytes)
parse_network networks line rest =
    let name = extract_key line in
    let network : ComposeNetwork = record { name = name; driver = []; external = false } in
    if extract_value line =ᵇ codes "external"
    then some (insert name (record network { external = true }) networks, rest)
    else let (network', rest') =
        each_line is_skipped_raw (ends_block (get_indent_level line)) set_network_field network
          rest in
      some (insert name network' networks, rest')

unfoldable pub parse_networks_section :
    Bytes → List Bytes → Dict ComposeNetwork → Option (Dict ComposeNetwork × List Bytes)
parse_networks_section line rest networks =
    each_block (length rest) is_skipped (ends_block (get_indent_level line)) parse_network networks
      rest

-- The body of the loop over the services.
abbrev pub add_service :
    Dict ComposeService → Bytes → List Bytes → Option (Dict ComposeService × List Bytes)
add_service services line rest = elim (parse_service (extract_key line) line rest new_service) [
  | none ↦ none
  | some (service, rest') ↦ some (insert (extract_key line) service services, rest')
]

abbrev with_services :
    ComposeFile → Option (Dict ComposeService × List Bytes) → Option (ComposeFile × List Bytes)
with_services compose none = none
with_services compose (some (services, rest)) = some (record compose { services = services }, rest)

abbrev with_networks :
    ComposeFile → Option (Dict ComposeNetwork × List Bytes) → Option (ComposeFile × List Bytes)
with_networks compose none = none
with_networks compose (some (networks, rest)) = some (record compose { networks = networks }, rest)

abbrev with_volumes : ComposeFile → Dict Bytes × List Bytes → Option (ComposeFile × List Bytes)
with_volumes compose (volumes, rest) = some (record compose { volumes = volumes }, rest)

-- The body of the outer loop of `parse`: one top-level key with its block.
unfoldable pub parse_top : ComposeFile → Bytes → List Bytes → Option (ComposeFile × List Bytes)
parse_top compose line rest =
    let key = extract_key line in
    let block = ends_block (get_indent_level line) in
    if key =ᵇ codes "version"
    then some (record compose { version = extract_value line }, rest)
    else if key =ᵇ codes "services"
    then with_services compose
        (each_block (length rest) is_skipped_raw block add_service compose.services rest)
    else if key =ᵇ codes "networks"
    then with_networks compose (parse_networks_section line rest compose.networks)
    else if key =ᵇ codes "volumes"
    then with_volumes compose
        (each_line is_skipped_raw block (λ m l. insert (extract_key l) [] m) compose.volumes rest)
    else some (compose, rest)

abbrev pub new_file : ComposeFile
new_file = record { version = []; services = []; networks = []; volumes = [] }

-- The compose file and the lines left, of which there are none.
unfoldable pub parse_lines : List Bytes → Option (ComposeFile × List Bytes)
parse_lines lines = each_block (length lines) is_skipped (λ line. false) parse_top new_file lines

unfoldable pub parse : Bytes → Option (ComposeFile × List Bytes)
parse yaml_content = parse_lines (split_lines yaml_content)

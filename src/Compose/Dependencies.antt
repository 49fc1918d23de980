-- ===== src/Compose/Dependencies.antt =====
-- modules/docker_monitor/src/compose_parser.cpp, `extract_dependencies`: what the services of a
-- compose file depend on. The loops over the map run in the order of its keys.
pub mod Reasons
use nazg.Base.{
  Bool, true, false, Option, none, some, List, [], ◌∷◌, ◌++◌, Bytes, codes, ◌=ᵇ◌, cut_at, take,
  drop, if◌then◌else◌, map,
}
use nazg.Base.Dict.{Dict, lookup}
use nazg.Base.Members.{gather, contains_bytes, single}
use nazg.Compose.Parse.{ComposeService, ComposeFile}

pub record DetectedDependency : Type 0 where
  pub service : Bytes
  pub depends_on : Bytes
  pub type : Bytes
  pub details : Bytes

abbrev pub declared_dependency : Bytes → Bytes → DetectedDependency
declared_dependency service_name dep = record {
  service = service_name;
  depends_on = dep;
  type = codes "depends_on";
  details = codes "Explicit dependency in compose file";
}

abbrev pub mode_dependency : Bytes → Bytes → DetectedDependency
mode_dependency service_name dep_service = record {
  service = service_name;
  depends_on = dep_service;
  type = codes "network_mode";
  details = codes "Uses network stack of " ++ dep_service;
}

abbrev static_ip : Option Bytes → Bytes
static_ip none = []
static_ip (some ip) = codes " (static IP: " ++ ip ++ codes ")"

abbrev pub network_dependency : Bytes → ComposeService → Bytes → Bytes → DetectedDependency
network_dependency service_name service network other_service_name = record {
  service = service_name;
  depends_on = other_service_name;
  type = codes "shared_network";
  details =
      codes "Both on network: " ++ network ++ static_ip (lookup network service.network_static_ips);
}

abbrev pub volume_dependency : Bytes → Bytes → Bytes → DetectedDependency
volume_dependency service_name volume_name other_service_name = record {
  service = service_name;
  depends_on = other_service_name;
  type = codes "shared_volume";
  details = codes "Both use volume: " ++ volume_name;
}

abbrev before_cut : Bytes → Option (Bytes × Bytes) → Bytes
before_cut volume none = volume
before_cut volume (some (before, behind)) = before

-- The name of a volume, which ends at the first colon.
abbrev pub volume_name : Bytes → Bytes
volume_name volume = before_cut volume (cut_at b':' volume)

abbrev pub through_mode : Bytes → Bytes → List DetectedDependency
through_mode service_name network_mode =
    if take 8 network_mode =ᵇ codes "service:"
    then single (mode_dependency service_name (drop 8 network_mode))
    else []

abbrev pub on_network :
    Bytes → ComposeService → Bytes → Bytes × ComposeService → List DetectedDependency
on_network service_name service network (other_service_name, other_service) =
    if other_service_name =ᵇ service_name
    then []
    else if contains_bytes network other_service.networks
    then single (network_dependency service_name service network other_service_name)
    else []

abbrev pub same_volume : Bytes → Bytes → Bytes → Bytes → List DetectedDependency
same_volume service_name volume other_service_name other_volume =
    if volume_name volume =ᵇ volume_name other_volume
    then single (volume_dependency service_name (volume_name volume) other_service_name)
    else []

abbrev pub on_volume : Bytes → Bytes → Bytes × ComposeService → List DetectedDependency
on_volume service_name volume (other_service_name, other_service) =
    if other_service_name =ᵇ service_name
    then []
    else gather (same_volume service_name volume other_service_name) other_service.volumes

-- The body of the loop over the services.
abbrev pub of_service : Dict ComposeService → Bytes × ComposeService → List DetectedDependency
of_service services (service_name, service) =
    map (declared_dependency service_name) service.depends_on
    ++ through_mode service_name service.network_mode
    ++ gather (λ network. gather (on_network service_name service network) services)
        service.networks
    ++ gather (λ volume. gather (on_volume service_name volume) services) service.volumes

unfoldable pub extract_dependencies : ComposeFile → List DetectedDependency
extract_dependencies compose = gather (of_service compose.services) compose.services

-- ===== src/Autonix/Mapping/Containers/Compose.antt =====
-- containers.rs: what is taken from a docker-compose file.
use procurator.Prelude.{ℕ, String, Bool, false, Option, none, some, List, [], ◌∷◌, str_eq}
use mathlib.Core.Option
use procurator.Prelude.HashMap.{HashMap, extend, keys}
use procurator.Prelude.Strings.{split_once, split, split_whitespace, parse_unsigned}
use procurator.Autonix.Mapping.Containers.{
  BuildConfig, PortMapping, VolumeMount, HealthCheck, ContainerService, ParsedContainerFile,
  default_container, DockerComposeBuildArgs, map_args, list_args, DockerComposeBuild, simple_build,
  complex_build, DockerComposePort, short_port, long_port, DockerComposeEnvironment, map_env,
  list_env, DockerComposeDependsOn, simple_depends, complex_depends, DockerComposeVolume,
  short_volume, long_volume, DockerComposeCommand, string_command, array_command,
  DockerComposeHealthCheck, DockerComposeService, DockerComposeFile,
}

abbrev pub of_ports : Option ℕ → ℕ → PortMapping
of_ports host container = record { host = host; container = container; protocol = none }

-- `host:container`, or the port of the container alone. A host that is no number is as good as none.
unfoldable pub short_mapping : String → Option (String × String) → Option PortMapping
short_mapping s (some (host, container)) =
    Option.map (of_ports (parse_unsigned 65536 host)) (parse_unsigned 65536 container)
short_mapping s none = Option.map (of_ports none) (parse_unsigned 65536 s)

-- `filter_map` takes what is there.
unfoldable pub push_some : {A : Type 0} → Option A → List A → List A
push_some none xs = xs
push_some (some x) xs = x ∷ xs

unfoldable pub parse_port_mapping : DockerComposePort → Option PortMapping
parse_port_mapping (short_port s) = short_mapping s (split_once b':' s)
parse_port_mapping (long_port target published protocol) =
    some (record { host = published; container = target; protocol = protocol })

unfoldable pub third_is_ro : List String → Bool
third_is_ro [] = false
third_is_ro (s ∷ rest) = str_eq s "ro"

unfoldable pub volume_of_parts : List String → Option VolumeMount
volume_of_parts [] = none
volume_of_parts (s ∷ []) = none
volume_of_parts (source ∷ target ∷ rest) =
    some
      (record { source = source; target = target; mount_type = none; read_only = third_is_ro rest })

unfoldable pub parse_volume_mount : DockerComposeVolume → Option VolumeMount
parse_volume_mount (short_volume s) = volume_of_parts (split b':' s)
parse_volume_mount (long_volume mount_type source target read_only) = some (record {
  source = source;
  target = target;
  mount_type = mount_type;
  read_only = Option.get_or read_only false;
})

-- The items `key=value` of a list.
unfoldable pub key_values : List String → List (String × String)
key_values [] = []
key_values (item ∷ items) =
    let rest = key_values items in elim (split_once b'=' item) [ some e ↦ e ∷ rest | none ↦ rest ]

abbrev map_of_list : List String → HashMap String
map_of_list items = extend [] (key_values items)

unfoldable pub environment_of : DockerComposeEnvironment → HashMap String
environment_of (map_env m) = m
environment_of (list_env items) = map_of_list items

unfoldable pub args_of : DockerComposeBuildArgs → HashMap String
args_of (map_args m) = m
args_of (list_args items) = map_of_list items

unfoldable pub depends_of : DockerComposeDependsOn → List String
depends_of (simple_depends names) = names
depends_of (complex_depends m) = keys m

unfoldable pub build_of : DockerComposeBuild → BuildConfig
build_of (simple_build context) = record {
  context = context;
  dockerfile = none;
  args = [];
  target = none;
}
build_of (complex_build context dockerfile args target) = record {
  context = context;
  dockerfile = dockerfile;
  args = args_of args;
  target = target;
}

unfoldable pub command_of : DockerComposeCommand → List String
command_of (string_command s) = split_whitespace s
command_of (array_command arr) = arr

unfoldable pub healthcheck_of : DockerComposeHealthCheck → HealthCheck
healthcheck_of hc = record {
  test = command_of hc.test;
  interval = hc.interval;
  timeout = hc.timeout;
  retries = hc.retries;
  start_period = hc.start_period;
}

unfoldable pub port_mappings : List DockerComposePort → List PortMapping
port_mappings [] = []
port_mappings (p ∷ ps) = push_some (parse_port_mapping p) (port_mappings ps)

unfoldable pub volume_mounts : List DockerComposeVolume → List VolumeMount
volume_mounts [] = []
volume_mounts (v ∷ vs) = push_some (parse_volume_mount v) (volume_mounts vs)

unfoldable pub service_of : String → DockerComposeService → ContainerService
service_of name service = record {
  name = name;
  image = service.image;
  build = Option.map build_of service.build;
  ports = port_mappings service.ports;
  environment = environment_of service.environment;
  depends_on = depends_of service.depends_on;
  volumes = volume_mounts service.volumes;
  command = Option.map command_of service.command;
  healthcheck = Option.map healthcheck_of service.healthcheck;
  restart = service.restart;
}

unfoldable pub services_of : HashMap DockerComposeService → List ContainerService
services_of [] = []
services_of ((name, service) ∷ services) = service_of name service ∷ services_of services

unfoldable pub of_compose : DockerComposeFile → ParsedContainerFile
of_compose compose = record default_container { services = services_of compose.services }

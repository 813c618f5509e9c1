-- ===== src/Autonix/Mapping/Containers/Parse.antt =====
-- containers.rs: the parser of a container file. A file is what reading it gives, and `none` stands
-- for a panic.
use procurator.Prelude.{String, ◌<>◌, Option, none, some, Result, ok, err, and_then, map_err}
use procurator.Autonix.Mapping.ParseErrors.{ParseError, io, yaml, invalid_format}
use procurator.Autonix.Mapping.Containers.{
  ContainerFile, docker_file, docker_compose, containerfile, skaffold, tiltfile,
  ParsedContainerFile, default_container,
}
use procurator.Autonix.Mapping.Containers.Dockerfiles.{instructions}
use procurator.Autonix.Mapping.Containers.Compose.{of_compose}
use procurator.Autonix.Mapping.Formats.{Formats}

module _ (F : Formats) where
  unfoldable pub parse_dockerfile :
      Result String String → Option (Result ParsedContainerFile ParseError)
  parse_dockerfile (err e) = some (err (io e))
  parse_dockerfile (ok content) = elim (F.dockerfile content) [
    | err e ↦ some (err (invalid_format ("Dockerfile parse error: " <> e)))
    | ok is ↦ elim (instructions F.lowercase is default_container) [
      | some r ↦ some (ok r)
      | none ↦ none
    ]
  ]

  unfoldable pub parse_docker_compose : Result String String → Result ParsedContainerFile ParseError
  parse_docker_compose read =
      and_then (map_err io read)
        λ content. and_then (map_err yaml (F.docker_compose content)) λ c. ok (of_compose c)

  -- `Parseable::parse`
  unfoldable pub parse_container :
      ContainerFile → Result String String → Option (Result ParsedContainerFile ParseError)
  parse_container docker_file read = parse_dockerfile read
  parse_container containerfile read = parse_dockerfile read
  parse_container docker_compose read = some (parse_docker_compose read)
  parse_container skaffold read = some (ok default_container)
  parse_container tiltfile read = some (ok default_container)

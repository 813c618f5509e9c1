-- ===== src/Autonix/Mapping/ParseErrors.antt =====
-- autonix/src/mapping/outils.rs: errors of parsing; those of other crates are their messages.
use procurator.Prelude.{String}

pub data ParseError : Type 0 where
  io : String → ParseError
  toml : String → ParseError
  json : String → ParseError
  yaml : String → ParseError
  invalid_format : String → ParseError

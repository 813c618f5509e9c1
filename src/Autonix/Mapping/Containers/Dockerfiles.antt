-- ===== src/Autonix/Mapping/Containers/Dockerfiles.antt =====
-- containers.rs: what is taken from a Dockerfile.
use procurator.Prelude.{
  ℕ, String, ◌+◌, Bool, not, ◌&&◌, ◌||◌, Option, none, some, List, [], ◌∷◌, ◌++◌, str_eq,
  if◌then◌else◌,
}
use procurator.Prelude.HashMap.{insert, extend}
use procurator.Prelude.Strings.{
  one_of, has_prefix, contains, find, slice_from, rsplit_once, before, split_whitespace, trim,
  join_with, parse_unsigned,
}
use procurator.Autonix.Mapping.Containers.{
  BaseImage, ParsedContainerFile, ShellOrExecExpr, shell, exec, Instruction, from_image, run, env,
  cmd, entrypoint, arg, label, misc, other,
}

unfoldable pub distribution_of : String → Option String
distribution_of t =
    if contains t "alpine"
    then some "alpine"
    else if contains t "slim"
    then some "slim"
    else if contains t "debian"
    then some "debian"
    else if contains t "ubuntu"
    then some "ubuntu"
    else none

unfoldable pub parse_base_image : String → BaseImage
parse_base_image image = elim (rsplit_once b':' image) [
  | some (name, tag) ↦ record {
    full = image;
    name = name;
    tag = some tag;
    distribution = distribution_of tag;
    stage_name = none;
  }
  | none ↦ record { full = image; name = image; tag = none; distribution = none; stage_name = none }
]

-- The words that are no flag and not among the given ones.
unfoldable pub package_words : List String → List String → List String
package_words stop [] = []
package_words stop (word ∷ words) =
    let rest = package_words stop words in
    if not (has_prefix word "-") && not (one_of word stop) then word ∷ rest else rest

-- One package manager's part: the words behind the first place, in lower case, of its verb. The
-- place is counted in the bytes of the text in lower case; `none` is the panic of the slice.
unfoldable pub packages_behind :
    Bool → String → ℕ → List String → String → String → Option (List String)
packages_behind asked verb width stop lower command =
    if asked
    then elim (find verb lower) [
      | none ↦ some []
      | some start ↦ elim (slice_from (start + width) command) [
        | none ↦ none
        | some rest ↦ some (package_words stop (split_whitespace rest))
      ]
    ]
    else some []

unfoldable pub both : Option (List String) → Option (List String) → Option (List String)
both none ys = none
both (some xs) none = none
both (some xs) (some ys) = some (xs ++ ys)

unfoldable pub expr_text : ShellOrExecExpr → String
expr_text (shell s) = s
expr_text (exec arr) = join_with " " arr

unfoldable pub expr_command : ShellOrExecExpr → List String
expr_command (shell s) = s ∷ []
expr_command (exec arr) = arr

unfoldable pub exposed_ports : List String → List ℕ
exposed_ports [] = []
exposed_ports (port_str ∷ words) =
    let rest = exposed_ports words in
    elim (parse_unsigned 65536 (before b'/' port_str)) [ some port ↦ port ∷ rest | none ↦ rest ]

-- The first `FROM` is the base image; every one is a stage.
unfoldable pub add_stage : BaseImage → ParsedContainerFile → ParsedContainerFile
add_stage image r = record r {
  base_image = elim r.base_image [ none ↦ some image | some first ↦ some first ];
  build_stages = r.build_stages ++ (image ∷ []);
}

unfoldable pub misc_instruction : String → String → ParsedContainerFile → ParsedContainerFile
misc_instruction name arguments r =
    if str_eq name "EXPOSE"
    then record r { ports = r.ports ++ exposed_ports (split_whitespace arguments) }
    else if str_eq name "WORKDIR"
    then record r { working_dir = some (trim arguments) }
    else if str_eq name "USER"
    then record r { user = some (trim arguments) }
    else r

module _ (lowercase : String → String) where
  unfoldable pub extract_packages_from_run : String → Option (List String)
  extract_packages_from_run command =
      let lower = lowercase command in
      both
        (packages_behind (contains lower "apt-get install" || contains lower "apt install")
          "install" 7 ("install" ∷ "apt-get" ∷ "apt" ∷ "&&" ∷ "||" ∷ "update" ∷ "-y" ∷ []) lower
          command)
        (both
          (packages_behind (contains lower "apk add") "add" 3
            ("add" ∷ "apk" ∷ "&&" ∷ "||" ∷ "--no-cache" ∷ []) lower command)
          (packages_behind (contains lower "yum install" || contains lower "dnf install") "install"
            7 ("install" ∷ "yum" ∷ "dnf" ∷ "&&" ∷ "||" ∷ "-y" ∷ []) lower command))

  unfoldable pub instruction : Instruction → ParsedContainerFile → Option ParsedContainerFile
  instruction (from_image image alias) r =
      some (add_stage (record (parse_base_image image) { stage_name = alias }) r)
  instruction (run e) r = elim (extract_packages_from_run (expr_text e)) [
    | some packages ↦ some (record r { system_packages = r.system_packages ++ packages })
    | none ↦ none
  ]
  instruction (env vars) r = some (record r { environment = extend r.environment vars })
  instruction (cmd e) r = some (record r { command = some (expr_command e) })
  instruction (entrypoint e) r = some (record r { command = some (expr_command e) })
  instruction (arg name value) r = some (record r { build_args = insert name value r.build_args })
  instruction (label ls) r = some (record r { labels = extend r.labels ls })
  instruction (misc name arguments) r = some (misc_instruction name arguments r)
  instruction other r = some r

  unfoldable pub instructions : List Instruction → ParsedContainerFile → Option ParsedContainerFile
  instructions [] r = some r
  instructions (i ∷ is) r = elim (instruction i r) [ some s ↦ instructions is s | none ↦ none ]

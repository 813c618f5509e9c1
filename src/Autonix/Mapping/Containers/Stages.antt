-- ===== src/Autonix/Mapping/Containers/Stages.antt =====
-- containers.rs: the stages and the base image of a Dockerfile.
use procurator.Prelude.{
  append-nil, append_assoc, String, ◌≡◌, refl, Option, none, some, List, [], ◌∷◌, ◌++◌, arith,
  Option-cases, inl, inr,
}
use procurator.Autonix.Mapping.Containers.{
  BaseImage, ParsedContainerFile, default_container, Instruction, from_image, run, env, cmd,
  entrypoint, arg, label, misc, other,
}
use procurator.Autonix.Mapping.Containers.Dockerfiles.{
  parse_base_image, add_stage, misc_instruction, instruction, instructions,
}

-- The images of the `FROM` instructions, in order.
unfoldable pub stages : List Instruction → List BaseImage
stages [] = []
stages (from_image image alias ∷ is) =
    record (parse_base_image image) { stage_name = alias } ∷ stages is
stages (_ ∷ is) = stages is

abbrev pub first {ℓ} : {A : Type ℓ} → List A → Option A
first [] = none
first (x ∷ xs) = some x

abbrev IsBased : ParsedContainerFile → Type 0
IsBased r = r.base_image ≡ first r.build_stages

-- What one instruction adds to the stages.
unfoldable stage : Instruction → List BaseImage
stage (from_image image alias) = record (parse_base_image image) { stage_name = alias } ∷ []
stage _ = []

abbrev Adds : ParsedContainerFile → List BaseImage → ParsedContainerFile → Type 0
Adds r images s = (s.build_stages ≡ r.build_stages ++ images) × IsBased s

first-append {ℓ} :
    {A : Type ℓ} (xs : List A) (x : A)
    → first (xs ++ (x ∷ [])) ≡ elim (first xs) [ none ↦ some x | some y ↦ some y ]
first-append [] x = refl
first-append (y ∷ ys) x = refl

add_stage-Adds :
    (image : BaseImage) (r : ParsedContainerFile)
    → IsBased r
    → Adds r (image ∷ []) (add_stage image r)
unfolding add_stage
add_stage-Adds image r h = (refl, ground (arith, first-append r.build_stages image))

module _ (lowercase : String → String) where
  instruction-Adds :
      (i : Instruction) (r s : ParsedContainerFile)
      → IsBased r
      → instruction lowercase i r ≡ some s
      → Adds r (stage i) s
  unfolding instruction stage misc_instruction
  instruction-Adds (from_image image alias) r s h e =
      let image = record (parse_base_image image) { stage_name = alias } in
      let same : add_stage image r ≡ s = ground arith in rw (← same) (add_stage-Adds image r h)
  instruction-Adds (run x) r s h e = ground (arith, append-nil r.build_stages)
  instruction-Adds (env vars) r s h e = ground (arith, append-nil r.build_stages)
  instruction-Adds (cmd x) r s h e = ground (arith, append-nil r.build_stages)
  instruction-Adds (entrypoint x) r s h e = ground (arith, append-nil r.build_stages)
  instruction-Adds (arg name value) r s h e = ground (arith, append-nil r.build_stages)
  instruction-Adds (label ls) r s h e = ground (arith, append-nil r.build_stages)
  instruction-Adds (misc name arguments) r s h e = ground (arith, append-nil r.build_stages)
  instruction-Adds other r s h e = ground (arith, append-nil r.build_stages)

  stages_cons : (i : Instruction) (is : List Instruction) → stages (i ∷ is) ≡ stage i ++ stages is
  unfolding stages stage
  stages_cons i is = ground arith

  stages_none : stages [] ≡ []
  unfolding stages
  stages_none = refl

  instructions-Adds :
      (is : List Instruction) (r s : ParsedContainerFile)
      → IsBased r
      → instructions lowercase is r ≡ some s
      → Adds r (stages is) s
  unfolding instructions
  instructions-Adds [] r s h e =
      let same : r ≡ s = ground arith in
      rw (← same) (cc (stages_none, append-nil r.build_stages), h)
  instructions-Adds (i ∷ is) r s h e = elim (Option-cases (instruction lowercase i r)) [
    | inl k ↦ absurd (ground arith)
    | inr (t, k) ↦
        let step = instruction-Adds i r t h k in
        let rest = instructions-Adds is t s step.1 (ground arith) in
        (
          cc (rest.0, step.0, stages_cons i is, append_assoc r.build_stages (stage i) (stages is)),
          rest.1,
        )
  ]

  -- What is read in a Dockerfile: the stages are its `FROM` instructions in order, and the base image
  -- is the first of them.
  pub instructions-stages :
      (is : List Instruction) (r : ParsedContainerFile)
      → instructions lowercase is default_container ≡ some r
      → (r.build_stages ≡ stages is) × (r.base_image ≡ first (stages is))
  unfolding default_container
  instructions-stages is r e =
      let read = instructions-Adds is default_container r refl e in (read.0, cc (read.0, read.1))

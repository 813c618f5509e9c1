-- ===== src/Ci/Builds.antt =====
-- ci_service/src/builds.rs: a build job as it is read from the database, and its status.
use procurator.Prelude.{
  ℕ, ◌+◌, String, ◌<>◌, ◌≡◌, refl, ◌↔◌, Bool, true, false, ◌&&◌, Option, List, [], ◌∷◌, map, arith,
  ltb, leb, ◌==◌, if◌then◌else◌, Result, ok, err,
}
use procurator.Prelude.{codes}

pub data BuildStatus : Type 0 where
  queued : BuildStatus
  running : BuildStatus
  success : BuildStatus
  failed : BuildStatus

unfoldable pub as_str : BuildStatus → String
as_str queued = "queued"
as_str running = "running"
as_str success = "success"
as_str failed = "failed"

-- `to_lowercase` on ASCII. Beyond it only U+0130 and U+212A have ASCII letters in their lower case,
-- and these give no status word.
unfoldable pub lower : ℕ → ℕ
lower c = if leb b'A' c && leb c b'Z' then c + 32 else c

abbrev pub same : List ℕ → List ℕ → Bool
same [] [] = true
same (a ∷ as') (b ∷ bs) = (a == b) && same as' bs
same _ _ = false

-- `FromStr`
unfoldable pub from_str : String → Result BuildStatus String
from_str s =
    let l = map lower (codes s) in
    if same l (codes "queued")
    then ok queued
    else if same l (codes "running")
    then ok running
    else if same l (codes "success")
    then ok success
    else if same l (codes "failed")
    then ok failed
    else err ("Invalid build status: " <> s)

-- Timestamps are numbers in the order of the texts that the source stores.
pub record BuildJob : Type 0 where
  pub id : ℕ
  pub repo_path : String
  pub commit_hash : String
  pub branch : String
  pub status : String
  pub retry_count : ℕ
  pub max_retries : ℕ
  pub created_at : ℕ
  pub started_at : Option ℕ
  pub finished_at : Option ℕ

unfoldable pub git_url : BuildJob → String
git_url b = b.repo_path <> ("#" <> b.commit_hash)

unfoldable pub can_retry : BuildJob → Bool
can_retry b = ltb b.retry_count b.max_retries

pub record BuildInfo : Type 0 where
  pub id : ℕ
  pub repo_path : String
  pub commit_hash : String
  pub branch : String
  pub status : BuildStatus
  pub retry_count : ℕ

abbrev or_queued : Result BuildStatus String → BuildStatus
or_queued (ok s) = s
or_queued (err e) = queued

-- `From<BuildJob> for BuildInfo`: a status that does not parse is shown as queued.
unfoldable pub build_info : BuildJob → BuildInfo
build_info b = record {
  id = b.id;
  repo_path = b.repo_path;
  commit_hash = b.commit_hash;
  branch = b.branch;
  status = or_queued (from_str b.status);
  retry_count = b.retry_count;
}

same-eq : (xs ys : List ℕ) → same xs ys ≡ true → xs ≡ ys
same-eq [] [] h = refl
same-eq [] (y ∷ ys) h = absurd (cc h)
same-eq (x ∷ xs) [] h = absurd (cc h)
same-eq (x ∷ xs) (y ∷ ys) h = ground (arith, same-eq xs ys)

-- A text parses as a status exactly if it is, but for the case of its letters, the word that the
-- status is printed as.
pub from_str_iff :
    (s : String) (b : BuildStatus) → (from_str s ≡ ok b) ↔ (map lower (codes s) ≡ codes (as_str b))
unfolding from_str as_str
from_str_iff s b = (parsed b, printed b)
  where
    l : List ℕ
    l = map lower (codes s)

    parsed : (b : BuildStatus) → from_str s ≡ ok b → map lower (codes s) ≡ codes (as_str b)
    parsed queued h = same-eq l _ (ground arith)
    parsed running h = same-eq l _ (ground arith)
    parsed success h = same-eq l _ (ground arith)
    parsed failed h = same-eq l _ (ground arith)

    printed : (b : BuildStatus) → map lower (codes s) ≡ codes (as_str b) → from_str s ≡ ok b
    printed queued e = rw (e, from_str)
    printed running e = rw (e, from_str)
    printed success e = rw (e, from_str)
    printed failed e = rw (e, from_str)

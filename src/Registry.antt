-- ===== src/Registry.antt =====
-- src/agent_lab/registry.py: the entries of the model registry.
pub mod Files
pub mod Entries
mod Tests
use agent_lab.Common.{ℕ, ◌+◌, ◌≡◌, false, List, [], ◌∷◌, String}
use agent_lab.Json.SameBut.{contains}

pub record ModelFile : Type 0 where
  pub name : String
  pub size : ℕ
  pub sha256 : String

pub record ModelEntry : Type 0 where
  pub id : String
  pub description : String
  pub repo : String
  pub revision : String
  pub disk_space : ℕ
  pub files : List ModelFile

-- The sizes of files, added up.
unfoldable pub total : List ModelFile → ℕ
total [] = 0
total (f ∷ fs) = f.size + total fs

-- entry.total_size
abbrev pub total_size : ModelEntry → ℕ
total_size e = total e.files

abbrev pub names : List ModelFile → List String
names [] = []
names (f ∷ fs) = f.name ∷ names fs

-- No two files have one name.
abbrev pub AreDistinct : List ModelFile → Type 0
AreDistinct [] = Unit {0}
AreDistinct (f ∷ fs) = (contains (names fs) f.name ≡ false) × AreDistinct fs

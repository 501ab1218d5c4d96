-- ===== src/Pull/Tests.antt =====
-- A pull of two files, one in place and one that is resumed after the connection broke.
use agent_lab.Common.{
  ℕ, ◌≡◌, ◌⊎◌, refl, Bool, true, false, List, [], ◌∷◌, none, some, String, str_eq, All,
  if◌then◌else◌, ◌==◌, arith,
}
use agent_lab.Json.{Value, end, field, get, put, remove, equals_nat}
use agent_lab.Json.SameBut.{contains}
use agent_lab.Registry.{ModelFile, AreDistinct}
use agent_lab.Pull.{
  file_record, File, no_records, save, load, Directory, local_state, downloaded, known_sha256,
  known_of, remember, forget, remove_name, texts, text_items,
}
use agent_lab.Pull.Records.{load-save}
use agent_lab.Pull.Download.{
  Reply, Network, complete, refused, answer, failure, bytes_of, download, attempts, attempt,
  request, receive, check_size, write_chunks, usable,
}
use agent_lab.Pull.Download.Ends.{IsEnd, download-IsEnd}
use agent_lab.Pull.Download.Resume.{IsPrefix, IsHonest, AlwaysHonest, concat, download-resumes}
use agent_lab.Pull.Verify.{
  hashes, pulled, pull, check_files, check_file, learn, drop, remove_strays, remaining,
  remaining_of, fetch_files, fetch_file, after_download, after_file, place, conclude,
}
use agent_lab.Pull.Verify.Loops.{IsTrue}
use agent_lab.Pull.Verify.Done.{start, IsInPlace, pull-downloaded, pull-IsInPlace}

abbrev sha256 : List ℕ → String
sha256 [] = "bb"
sha256 (c ∷ cs) = if c == 7 then "aa" else "bb"

abbrev to_text : Value → String
to_text v = ""

abbrev config_file : ModelFile
config_file = record { name = "config.json"; size = 2; sha256 = "aa" }

abbrev weights : ModelFile
weights = record { name = "model.safetensors"; size = 4; sha256 = "bb" }

abbrev files : List ModelFile
files = config_file ∷ weights ∷ []

abbrev content : List ℕ
content = 1 ∷ 2 ∷ 3 ∷ 4 ∷ []

-- The first attempt breaks off after one byte, the second goes on from the offset.
abbrev reply_from : ℕ → ℕ → Reply
reply_from n offset =
    if offset == 2
    then answer 206 ((3 ∷ []) ∷ []) true
    else if offset == 3
    then answer 206 ((4 ∷ []) ∷ []) false
    else failure

abbrev net : Network
net = record { fetch = reply_from; clock = λ n. 100 }

abbrev config_there : File
config_there = record { bytes = 7 ∷ 8 ∷ []; mtime = 50 }

abbrev half : File
half = record { bytes = 1 ∷ 2 ∷ []; mtime = 60 }

abbrev before : Directory
before = record {
  files = λ name. if str_eq name "config.json" then some config_there else none;
  partial = λ sha. if str_eq sha "bb" then some half else none;
  state = none;
}

resumed : download net 4 (some half) ≡ (complete, some (record { bytes = content; mtime = 100 }))
unfolding download attempts attempt request receive check_size write_chunks usable
resumed = refl

download-IsEnd_example : IsEnd 4 (download net 4 (some half)).0 (download net 4 (some half)).1
download-IsEnd_example = download-IsEnd net 4 (some half)

net-honest : AlwaysHonest content net
unfolding concat
net-honest n offset = go (offset == 2) refl (offset == 3) refl
  where
    go :
        (b : Bool)
        → (offset == 2) ≡ b
        → (c : Bool) → (offset == 3) ≡ c
        → IsHonest content offset (
            if b
            then answer 206 ((3 ∷ []) ∷ []) true
            else if c
            then answer 206 ((4 ∷ []) ∷ []) false
            else failure)
    go true e c h = (1 ∷ 2 ∷ [], ground (arith, e), (4 ∷ [], refl))
    go false e true h = (1 ∷ 2 ∷ 3 ∷ [], ground (arith, h), ([], refl))
    go false e false h = tt

download-resumes_example :
    IsPrefix (bytes_of (download net 4 (some half)).1) content
    × (((download net 4 (some half)).0 ≡ refused)
        ⊎ (bytes_of (download net 4 (some half)).1 ≡ content))
download-resumes_example = download-resumes net (some half) content net-honest (3 ∷ 4 ∷ [], refl)

load-save_example : load to_text (some (save no_records)) ≡ no_records
load-save_example = load-save to_text no_records

abbrev after : Directory
after = record {
  files = λ name.
      if str_eq "model.safetensors" name
      then some (record { bytes = content; mtime = 100 })
      else before.files name;
  partial = λ sha.
      if str_eq "bb" sha
      then none
      else if contains (hashes files) sha
      then before.partial sha
      else none;
  state = some (
      save (record {
        verified = field "config.json" (file_record config_there "aa") (
            field "model.safetensors" (file_record (record { bytes = content; mtime = 100 }) "bb")
              end);
        failed = [];
      }));
}

run : pull sha256 to_text false (λ f. net) 1000000000 files before ≡ (pulled, after)
unfolding pull check_files check_file learn drop remove_strays remaining remaining_of fetch_files
    fetch_file after_download after_file place conclude save load known_sha256 known_of remember
    forget remove_name texts text_items download attempts attempt request receive check_size
    write_chunks usable get put remove equals_nat
run = refl

distinct : AreDistinct files
distinct = (refl, (refl, tt))

pull-downloaded_example : local_state to_text files after true ≡ downloaded
pull-downloaded_example =
    pull-downloaded sha256 to_text false (λ f. net) 1000000000 files before after true distinct run

no_records-IsTrue : IsTrue sha256 (start sha256 to_text files before)
unfolding known_sha256 known_of load get
no_records-IsTrue name sha e = cc

pull-IsInPlace_example : All (IsInPlace sha256 to_text after.files) files
pull-IsInPlace_example =
    pull-IsInPlace sha256 to_text false (λ f. net) 1000000000 files before after distinct
      no_records-IsTrue run

-- ===== src/Registry/Tests.antt =====
-- One registry through `parse_registry`, and the theorem about it.
use agent_lab.Common.{ℕ, ◌+◌, ◌-◌, ◌*◌, ◌≡◌, refl, List, [], ◌∷◌, String, ◌==◌}
use agent_lab.Common.Int.{pos}
use agent_lab.Json.{Value, Fields, int, str, obj, arr, nil, cons, end, field, finite, get}
use agent_lab.Config.Text.{is_digit, is_lower, is_upper, all_in}
use agent_lab.Config.Size.{
  Python, parse_size, parse_fraction, parse_unit, span, size_unit, times_unit,
}
use agent_lab.Config.Section.{open_section, finish, size, string, fail, get_field}
use agent_lab.Registry.{ModelEntry, total}
use agent_lab.Registry.Files.{
  split_slashes, part_fine, parts_fine, name_fine, is_sha256, unknown_keys, name_good, sha_good,
  parse_item, parse_items, parse_files, read_files,
}
use agent_lab.Registry.Entries.{
  is_model_id, is_repo_part, is_repo, is_revision, registry, has_id, too_small, add_entry,
  unknown_tables, conclude, entry_section, add_table, add_tables, parse_registry,
}
use agent_lab.Registry.Entries.Checked.{IsRegistry, parse_registry-IsRegistry}

digits_value : ℕ → List ℕ → ℕ
digits_value acc [] = acc
digits_value acc (c ∷ cs) = digits_value (acc * 10 + (c - 48)) cs

abbrev py : Python
py = record {
  is_space = λ c. c == b' ';
  is_decimal = is_digit;
  text_to_float = λ text. finite (pos (digits_value 0 text)) 0;
  int_to_float = λ n. finite n 0;
}

abbrev label : ℕ → Value → String
label n table = "model"

abbrev ones : String
ones = "1111111111111111111111111111111111111111111111111111111111111111"

abbrev commit : String
commit = "2222222222222222222222222222222222222222"

abbrev file_table : Fields
file_table =
    field "name" (str "sub/config.json")
      (field "size" (int (pos 1570)) (field "sha256" (str ones) end))

abbrev entry_table : Fields
entry_table = field "id" (str "qwen3-0.6b") (
    field "description" (str "a small model") (
      field "repo" (str "org/Qwen3-0.6B") (
        field "revision" (str commit)
          (field "disk_space" (str "2KB") (field "files" (arr (cons (obj file_table) nil)) end)))))

abbrev tables : Fields
tables = field "model" (arr (cons (obj entry_table) nil)) end

abbrev parsed : List ModelEntry
parsed =
    (record {
      id = "qwen3-0.6b";
      description = "a small model";
      repo = "org/Qwen3-0.6B";
      revision = commit;
      disk_space = 2048;
      files = (record { name = "sub/config.json"; size = 1570; sha256 = ones }) ∷ [];
    })
    ∷ []

run : parse_registry py label tables ≡ registry parsed
unfolding parse_registry add_tables add_table add_entry unknown_tables conclude entry_section has_id
    too_small total is_model_id is_repo_part is_repo is_revision read_files parse_files parse_items
    parse_item unknown_keys name_good sha_good name_fine split_slashes part_fine parts_fine
    is_sha256 open_section finish size string fail get_field parse_size parse_fraction parse_unit
    span size_unit times_unit digits_value get is_digit is_lower is_upper all_in
run = refl

parse_registry-IsRegistry_example : IsRegistry parsed
parse_registry-IsRegistry_example = parse_registry-IsRegistry py label tables parsed run

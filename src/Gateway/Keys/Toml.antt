-- ===== src/Gateway/Keys/Toml.antt =====
-- What TOML says of a document like keys.toml, for src/agent_lab/gateway/keys.py: a comment, and tables
-- [parent.name] of basic strings without escapes, as TOML 1.0 writes them and reads them.
use Prim.Native.String.{◌++◌ as append}
use agent_lab.Common.{List, [], ◌∷◌, ◌++◌, map, some, ◌≡◌, String}
use agent_lab.Json.{Fields, str, obj, end, field}
use agent_lab.Gateway.Keys.{Hashing, KeyEntry}

-- A table: the last part of its name, and its keys with their texts.
abbrev pub Table : Type 0
Table = String × List (String × String)

pub record Document : Type 0 where
  pub comment : String
  pub parent : String
  pub tables : List Table

-- A key and its text: key = "text".
unfoldable pub pair_lines : List (String × String) → List String
pair_lines [] = []
pair_lines ((key, value) ∷ pairs) =
    append key (append " = \"" (append value "\"")) ∷ pair_lines pairs

-- A table: its header, its pairs and an empty line.
unfoldable pub table_lines : String → List Table → List String
unfolding pair_lines
table_lines parent [] = []
table_lines parent ((name, pairs) ∷ tables) =
    append "[" (append parent (append "." (append name "]"))) ∷ pair_lines pairs
    ++ "" ∷ table_lines parent tables

-- Lines with a line break between them.
unfoldable pub broken_lines : List String → String
broken_lines [] = ""
broken_lines (line ∷ []) = line
broken_lines (line ∷ lines) = append line (append "\n" (broken_lines lines))

unfoldable pub toml_text : Document → String
unfolding table_lines broken_lines
toml_text d = broken_lines (append "#" d.comment ∷ "" ∷ table_lines d.parent d.tables)

unfoldable pub pair_fields : List (String × String) → Fields
pair_fields [] = end
pair_fields ((key, value) ∷ pairs) = field key (str value) (pair_fields pairs)

unfoldable pub table_fields : List Table → Fields
unfolding pair_fields
table_fields [] = end
table_fields ((name, pairs) ∷ tables) = field name (obj (pair_fields pairs)) (table_fields tables)

-- The dict that the document describes: a parent is there where it has a table.
unfoldable pub toml_value : Document → Fields
unfolding table_fields
toml_value d = elim d.tables [
  | [] ↦ end
  | t ∷ ts ↦ field d.parent (obj (table_fields (t ∷ ts))) end
]

-- A parser reads this document as TOML says.
abbrev pub ReadsToml : Hashing → Document → Type 0
ReadsToml lib d = lib.parse (toml_text d) ≡ some (toml_value d)

-- The documented form of the key file: a table [keys.name] for each key, with its hash and its time.
abbrev pub entry_table : KeyEntry → Table
entry_table e = (e.name, ("hash", e.hash) ∷ ("created", e.created) ∷ [])

abbrev pub key_document : List KeyEntry → Document
key_document es = record {
  comment = " API keys for the gateway, managed by `alab keys`. Only hashes are stored.";
  parent = "keys";
  tables = map entry_table es;
}

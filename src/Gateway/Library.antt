-- ===== src/Gateway/Library.antt =====
-- What the gateway takes from Python's library, as a parameter of the model.
use agent_lab.Common.{Bool, String}
use agent_lab.Json.{Value}

-- `json.loads`: a value, a ValueError, or a RecursionError where the text nests too deep.
pub data Loads : Type 0 where
  loaded : Value → Loads
  value_error : Loads
  too_deep : Loads

pub record Library : Type 0 where
  pub loads : String → Loads
  -- `str.isdigit`, over all of Unicode
  pub isdigit : String → Bool

-- ===== src/Gateway/Result.antt =====
-- src/agent_lab/gateway/translate.py: `ApiError`, and what the functions of the gateway raise.
-- The wording of the messages is not modelled.
use agent_lab.Common.{ℕ, ◌≡◌, refl, Bool, true, false, Option, none, some, String}

-- The `param` of an error: a field of the request, or `messages[i].content`,
-- `messages[i].tool_calls`.
pub data Param : Type 0 where
  named : String → Param
  content_of : ℕ → Param
  tool_calls_of : ℕ → Param

pub record ApiError : Type 0 where
  pub status : ℕ
  pub code : Option String
  pub param : Option Param
  pub kind : String

-- An `ApiError`, or an exception of Python itself that nothing in these functions catches.
pub data Raised : Type 0 where
  api : ApiError → Raised
  type_error : Raised
  overflow_error : Raised
  recursion_error : Raised
  -- a ValueError, of which a UnicodeDecodeError is one
  value_error : Raised
  -- the client left while its request was read
  client_disconnect : Raised

pub data Result {ℓ} (A : Type ℓ) : Type ℓ where
  ok : A → Result A
  raised : Raised → Result A

-- What raises ends the block.
infixl 20 ◌>>=◌ ◌>>◌
abbrev pub ◌>>=◌ {ℓ κ} : {X : Type ℓ} {Y : Type κ} → Result X → (X → Result Y) → Result Y
raised e >>= next = raised e
ok x >>= next = next x

abbrev pub ◌>>◌ {ℓ} : {Y : Type ℓ} → Result (Unit {0}) → Result Y → Result Y
first >> rest = first >>= λ _. rest

-- `_bad(message, param)`
abbrev pub bad_field : Param → Raised
bad_field p = api (record {
  status = 400;
  code = some "invalid_value";
  param = some p;
  kind = "invalid_request_error";
})

-- `_bad(message)`
abbrev pub bad_request : Raised
bad_request =
    api (record { status = 400; code = none; param = none; kind = "invalid_request_error" })

-- if condition: raise error
abbrev pub reject_if : Bool → Raised → Result (Unit {0})
reject_if true e = raised e
reject_if false e = ok tt

-- A block that returned: its first step returned, and so did the rest.
pub >>=-eq-ok {ℓ κ} :
    {X : Type ℓ} {Y : Type κ} (step : Result X) (rest : X → Result Y) {y : Y}
    → (step >>= rest) ≡ ok y
    → (x : X) × (step ≡ ok x) × (rest x ≡ ok y)
>>=-eq-ok (raised e) rest h = cc
>>=-eq-ok (ok x) rest h = (x, refl, h)

pub reject_if-eq-ok : (b : Bool) (e : Raised) {u : Unit {0}} → reject_if b e ≡ ok u → b ≡ false
reject_if-eq-ok true e h = cc
reject_if-eq-ok false e h = refl

pub ok_inj {ℓ} : {A : Type ℓ} {a b : A} → ok a ≡ ok b → a ≡ b
ok_inj h = cc

-- Where a block goes on past a test, the test failed, and the rest returned.
pub past_reject {ℓ} :
    {A : Type ℓ} (b : Bool) (e : Raised) (rest : Result A) {a : A}
    → (reject_if b e >> rest) ≡ ok a
    → (b ≡ false) × (rest ≡ ok a)
past_reject true e rest h = cc
past_reject false e rest h = (refl, h)

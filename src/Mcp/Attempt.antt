-- ===== src/Mcp/Attempt.antt =====
-- The results of code that throws, in tools/hw-agent-mcp.
use hw_agent.Prelude.{Bool, true, false, String, Text, codes, Option, none, some}

-- An exception, with its `what()`: std::invalid_argument, or another std::exception.
pub data Exception : Type 0 where
  invalid_argument : Text → Exception
  other_exception : Text → Exception

-- `undefined` is the overflow of a signed integer.
pub data Attempt {ℓ} (Value : Type ℓ) : Type ℓ where
  raises : Exception → Attempt Value
  undefined : Attempt Value
  gives : Value → Attempt Value

infixl 5 ◌>>=◌ ◌>>◌
abbrev pub ◌>>=◌ {ℓ κ} :
    {Value : Type ℓ} {Next : Type κ} → Attempt Value → (Value → Attempt Next) → Attempt Next
raises exception >>= next = raises exception
undefined >>= next = undefined
gives value >>= next = next value

abbrev pub ◌>>◌ {ℓ} : {Next : Type ℓ} → Attempt (Unit {0}) → Attempt Next → Attempt Next
check >> next = check >>= λ _. next

abbrev pub invalid {ℓ} : {Value : Type ℓ} → String → Attempt Value
invalid message = raises (invalid_argument (codes message))

-- `if (!condition) throw std::invalid_argument(message)`
abbrev pub require : Bool → String → Attempt (Unit {0})
require true message = gives tt
require false message = invalid message

-- The value, or std::invalid_argument.
abbrev pub require_some {ℓ} : {Value : Type ℓ} → Option Value → String → Attempt Value
require_some (some value) message = gives value
require_some none message = invalid message

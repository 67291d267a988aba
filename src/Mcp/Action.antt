-- ===== src/Mcp/Action.antt =====
-- Code that throws and acts on a world, in tools/hw-agent-mcp.
use hw_agent.Mcp.Attempt.{Attempt, raises, undefined, gives}

abbrev pub Action : Type 0 → Type 0 → Type 0
Action W Value = W → Attempt Value × W

abbrev pub proceed {ℓ} :
    {W : Type 0} {Value : Type 0} {Next : Type ℓ}
    → Attempt Value × W
    → (Value → W → Attempt Next × W)
    → Attempt Next × W
proceed (raises exception, w) next = (raises exception, w)
proceed (undefined, w) next = (undefined, w)
proceed (gives value, w) next = next value w

infixl 5 ◌>>=◌ ◌>>◌
abbrev pub ◌>>=◌ :
    {W Value Next : Type 0} → Action W Value → (Value → Action W Next) → Action W Next
(action >>= next) w = proceed (action w) next

abbrev pub ◌>>◌ : {W Value Next : Type 0} → Action W Value → Action W Next → Action W Next
action >> next = action >>= λ _. next

-- Code that leaves the world as it is.
abbrev pub attempt : {W Value : Type 0} → Attempt Value → Action W Value
attempt result w = (result, w)

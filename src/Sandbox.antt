-- ===== src/Sandbox.antt =====
-- internal/deliverer/provider/sandbox/sandbox.go: the in-memory provider. Its mutex makes each method
-- one step.
pub mod Counting
pub mod EndToEnd
use pulsar_notifcation_pipel.Base.{
  apply_all, none, zero, ◌++◌, ltb, suc, if◌then◌else◌, ◌∷◌, [], length, ascii, some, ◌+◌, List,
  Option, Text, ℕ,
}
use pulsar_notifcation_pipel.GoError.{is_nil, new, permanent_error, nil, Error}
use pulsar_notifcation_pipel.Provider.{PushReturn, PushProvider}
use pulsar_notifcation_pipel.Message.{Notification}

pub record Sandbox : Type 0 where
  pub delivered : List Notification
  -- Errors to return before pushes succeed; `nil` means "succeed".
  pub scripted : List Error
  pub position : ℕ

abbrev pub SandboxOption : Type 0
SandboxOption = Sandbox → Sandbox

unfoldable pub with_scripted_errors : List Error → SandboxOption
with_scripted_errors seq p = record p { scripted = seq }

unfoldable pub new_sandbox : List SandboxOption → Sandbox
new_sandbox opts = apply_all opts (record { delivered = []; scripted = []; position = 0 })

-- p.scripted[i]; an index out of range would panic, and the test before it excludes that.
abbrev pub entry : List Error → ℕ → Error
entry [] i = nil
entry (e ∷ es) zero = e
entry (e ∷ es) (suc i) = entry es i

-- What follows the script.
unfoldable pub accept : Option Notification → Sandbox → PushReturn × Sandbox
accept none p = (
  (none, permanent_error (ascii "provider-rejected-payload") [] (new (ascii "nil notification"))),
  p,
)
accept (some n) p = (
  (some (record { provider_response = ascii "sandbox:accepted" }), nil),
  record p { delivered = p.delivered ++ n ∷ [] },
)

unfoldable pub push : Option Notification → Sandbox → PushReturn × Sandbox
push n p =
    let err = entry p.scripted p.position in
    let p' = record p { position = p.position + 1 } in
    if ltb p.position (length p.scripted)
    then if is_nil err then accept n p' else ((none, err), p')
    else accept n p

-- Attempts
unfoldable pub attempts : Sandbox → ℕ
attempts p = p.position + length p.delivered

unfoldable pub name : Text
name = ascii "sandbox"

abbrev pub provider : PushProvider Sandbox
provider = record { name = name; push = λ n. push (some n) }

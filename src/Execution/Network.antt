-- ===== src/Execution/Network.antt =====
-- NetworkPolicy of noble/network.py; the parser of URLs is an argument.
-- urlsplit(url), as far as it is read
use noble_cascade.Errors.{Result, builtin, err, fault, network_denied, ok, value_error}
use noble_cascade.Prelude.{
  Bool, Option, String, [], arith, contains, false, given, if◌then◌else◌, is_some, none, not, some,
  ◌||◌, ◌∷◌, ◌≢◌,
}

pub record Destination : Type 0 where
  pub scheme : String
  pub hostname : Option String

-- NetworkPolicy(enabled), with the field `enabled` that it sets
unfoldable pub network_policy : Bool → Result Bool
network_policy enabled =
    if enabled
    then err (fault network_denied "network mode requires an independently verified egress sandbox")
    else ok false

-- check; urlsplit raises ValueError where the parser has no answer
unfoldable pub check_network : (String → Option Destination) → String → Result (Unit {0})
unfolding contains
check_network urlsplit url = elim (urlsplit url) [
  | none ↦ err (builtin value_error)
  | some parts ↦
      if not (contains ("http" ∷ "https" ∷ []) parts.scheme) || not (is_some (given parts.hostname))
      then err (fault network_denied "unsupported network destination")
      else err (fault network_denied "network access is disabled in this runtime")
]

-- Whatever the URL, the check lets nothing pass.
network_closed :
    (urlsplit : String → Option Destination) (url : String) → check_network urlsplit url ≢ ok tt
unfolding check_network
network_closed urlsplit url h = ground (arith, h)

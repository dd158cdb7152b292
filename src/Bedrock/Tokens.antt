-- ===== src/Bedrock/Tokens.antt =====
-- The token of a provider that Bedrock starts.
use cachercise.Base.{Bool, ℕ, ◌≤◌, ◌≡◌, refl, true, String, Option, some}
use cachercise.Base.Run.{ok}
use cachercise.Common.{success, Ptr}
use cachercise.Backend.{BackendImpl}
use cachercise.Table.{UtHash}
use cachercise.Margo.{Margo}
use cachercise.Provider.Lifecycle.{new_provider}
use cachercise.Provider.Register.{CanRegister, register-ok}
use cachercise.Provider.{Cache, Provider, check_token}
use cachercise.Bedrock.{BedrockArgs, provider_args, register_provider}

-- A provider that Bedrock starts has no token: its start succeeds, on a server where the provider id is
-- free and the memory is there, eight bytes that can be used in the block for the list of backends
-- included, and whatever token is sent to it, or none, is valid.
pub register_provider-accepts :
    {M W T : Type 0} (margo : Margo M) (hash : UtHash T (Cache W)) (usable : ℕ → Option ℕ)
    (strdup : Bool) (dummy : BackendImpl W) (self : Ptr) (a : BedrockArgs) (m : M) (n : ℕ)
    → CanRegister margo hash usable strdup dummy self a.provider_id (some (provider_args a)) m
    → usable 1 ≡ some n
    → 8 ≤ n
    → (p : Provider W T) × (m' : M) × (register_provider margo hash usable strdup dummy self a m
        ≡ ok (success, some p, m'))
      × ((token : Option String) → check_token p token ≡ ok true)
unfolding register_provider check_token new_provider
register_provider-accepts margo hash usable strdup dummy self a m n c u b = (
  _,
  _,
  register-ok margo hash usable strdup dummy self a.provider_id (some (provider_args a)) m n c u b,
  λ token. refl,
)

-- ===== src/Bedrock.antt =====
-- src/bedrock-module.c: the module through which Bedrock starts providers and makes clients.
use cachercise.Base.{ℕ, Bool, String, Option, none, some, List, ◌==◌, if◌then◌else◌}
use cachercise.Base.Run.{Run, ok, fault, undefined}
use cachercise.Common.{ReturnCode, Ptr, null}
use cachercise.Backend.{BackendImpl}
use cachercise.Table.{UtHash}
use cachercise.Margo.{Margo}
use cachercise.Client.{Client, client_init, client_finalize}
use cachercise.Provider.{Cache, Provider}
use cachercise.Provider.Lifecycle.{ProviderArgs, register, destroy}
pub mod Tokens

-- What the program reads of bedrock_args_t.
pub record BedrockArgs : Type 0 where
  pub provider_id : ℕ
  pub pool : Ptr
  pub abt_io : Ptr

-- The provider arguments: the token stays NULL.
abbrev pub provider_args : BedrockArgs → ProviderArgs
provider_args a = record { token = none; pool = a.pool; abtio = a.abt_io }

module _ {M W T : Type 0} (margo : Margo M) (hash : UtHash T (Cache W)) where
  unfoldable pub register_provider :
      (ℕ → Option ℕ)
      → (strdup : Bool) → BackendImpl W
      → Ptr
      → BedrockArgs
      → M
      → Run (ReturnCode × Option (Provider W T) × M)
  register_provider usable strdup dummy self a m =
      register margo hash usable strdup dummy self a.provider_id (some (provider_args a)) m

  unfoldable pub deregister_provider : Ptr → Provider W T → M → W → Run (ReturnCode × M × W)
  deregister_provider self p m w = destroy margo hash self p m w

-- cachercise_init_client
unfoldable pub init_client :
    (memory : Ptr) (registered : Option (ℕ × ℕ × ℕ)) (new : ℕ × ℕ × ℕ) → ReturnCode × Option Client
unfolding client_init
init_client memory registered new = client_init memory registered new

-- cachercise_finalize_client
unfoldable pub finalize_client : Client → ReturnCode × Option ℕ
unfolding client_finalize
finalize_client c = client_finalize c

-- cachercise_get_provider_config and cachercise_get_client_config
abbrev pub get_config : String
get_config = "{}"

-- struct cachercise_provider_handle
pub record ProviderHandle : Type 0 where
  pub mid : Ptr
  pub addr : ℕ
  pub provider_id : ℕ

-- `memory` is what `calloc` gives, which is not looked at, and `dup` the address that margo_addr_dup
-- makes; `mid` stays as `calloc` has cleared it.
unfoldable pub create_provider_handle :
    (memory : Ptr) (dup : ℕ) (provider_id : ℕ) → Run ProviderHandle
create_provider_handle memory dup provider_id =
    if memory == null
    then fault undefined
    else ok (record { mid = null; addr = dup; provider_id = provider_id })

-- The Margo instance and the address that margo_addr_free is called with.
unfoldable pub destroy_provider_handle : ProviderHandle → Ptr × ℕ
destroy_provider_handle ph = (ph.mid, ph.addr)

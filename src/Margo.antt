-- ===== src/Margo.antt =====
-- What the program asks of Margo: the RPCs that are registered with an instance, and the callbacks
-- that it runs when it is finalized. Margo is not part of the repository: this is an interface, with
-- what Margo documents of it.
use text.Mathlib.Text.{◌==◌ as str_eq}
use cachercise.Base.{ℕ, ◌≡◌, Bool, false, ◌&&◌, ◌||◌, String, List, [], ◌∷◌, ◌==◌, if◌then◌else◌}
use cachercise.Common.{Ptr}

-- A registered RPC: its name and the provider id that it is registered for.
pub record Rpc : Type 0 where
  pub id : ℕ
  pub name : String
  pub provider_id : ℕ

abbrev pub is_registered : String → ℕ → List Rpc → Bool
is_registered name pid [] = false
is_registered name pid (r ∷ rs) =
    (str_eq name r.name && r.provider_id == pid) || is_registered name pid rs

-- The RPCs but those with the id.
abbrev pub without : ℕ → List Rpc → List Rpc
without i [] = []
without i (r ∷ rs) = if r.id == i then without i rs else r ∷ without i rs

abbrev pub has_id : ℕ → List Rpc → Bool
has_id i [] = false
has_id i (r ∷ rs) = (r.id == i) || has_id i rs

pub record Margo (M : Type 0) : Type 0 where
  -- margo_is_listening
  pub is_listening : M → Bool
  pub rpcs : M → List Rpc
  pub callbacks : M → List Ptr
  -- MARGO_REGISTER_PROVIDER: name, provider id and pool; the id comes back
  pub register : String → ℕ → Ptr → M → ℕ × M
  pub deregister : ℕ → M → M
  -- margo_provider_push_finalize_callback and margo_provider_pop_finalize_callback
  pub push_finalize : Ptr → M → M
  pub pop_finalize : Ptr → M → M
  pub register-fresh :
      (name : String) (pid : ℕ) (pool : Ptr) (m : M)
      → has_id (register name pid pool m).0 (rpcs m) ≡ false
  pub register-rpcs :
      (name : String) (pid : ℕ) (pool : Ptr) (m : M)
      → rpcs (register name pid pool m).1
        ≡ record { id = (register name pid pool m).0; name = name; provider_id = pid } ∷ rpcs m
  pub register-callbacks :
      (name : String) (pid : ℕ) (pool : Ptr) (m : M)
      → callbacks (register name pid pool m).1 ≡ callbacks m
  pub register-is_listening :
      (name : String) (pid : ℕ) (pool : Ptr) (m : M)
      → is_listening (register name pid pool m).1 ≡ is_listening m
  pub deregister-rpcs : (i : ℕ) (m : M) → rpcs (deregister i m) ≡ without i (rpcs m)
  pub deregister-callbacks : (i : ℕ) (m : M) → callbacks (deregister i m) ≡ callbacks m
  pub push-rpcs : (p : Ptr) (m : M) → rpcs (push_finalize p m) ≡ rpcs m
  pub push-callbacks : (p : Ptr) (m : M) → callbacks (push_finalize p m) ≡ p ∷ callbacks m
  pub push-is_listening : (p : Ptr) (m : M) → is_listening (push_finalize p m) ≡ is_listening m
  pub pop-rpcs : (p : Ptr) (m : M) → rpcs (pop_finalize p m) ≡ rpcs m
  pub pop-push :
      (p : Ptr) (m : M) (cs : List Ptr) → callbacks m ≡ p ∷ cs → callbacks (pop_finalize p m) ≡ cs

-- ===== src/EndToEnd/Sums.antt =====
-- cachercise_compute_sum of src/client.c against the handler of src/provider.c and the dummy backend.
use cachercise.Base.{◌≡◌, refl, ap, ◌∙◌, Option, some, if◌then◌else◌, Bool-cases, inl, inr}
use cachercise.Base.Int.{ℤ, ◌+ℤ◌, fits_int32}
use cachercise.Base.Run.{Run, ok, fault, undefined, ◌>>=◌}
use cachercise.Common.{ReturnCode, success}
use cachercise.Dummy.Memory.{Env, Heap}
use cachercise.Dummy.{dummy_backend, compute_sum}
use cachercise.Table.{UtHash}
use cachercise.Messages.{SumOut}
use cachercise.Provider.{Cache, Provider, find_cache}
use cachercise.Provider.Handlers
use cachercise.Client.{Handle}
use cachercise.Client.Calls.{output, sum_answer}

dummy_backend-sum : (env : Env) → (dummy_backend env).sum ≡ compute_sum
unfolding dummy_backend
dummy_backend-sum env = refl

module _ {T : Type 0} (hash : UtHash T (Cache Heap)) (p : Provider Heap T) where
  -- cachercise_compute_sum over a transport that delivers: the handler answers, with `out` on its
  -- stack, and the client reads the answer.
  unfoldable pub served_sum :
      (out : SumOut) → Handle → (x y : ℤ) → Heap → Run (ReturnCode × Option ℤ × Heap)
  served_sum out handle x y w = do
    (answer, w') ←
        Handlers.sum hash p w out (some (record { cache_id = handle.cache_id; x = x; y = y }))
    let (ret, result) = sum_answer (output answer)
    ok (ret, result, w')

  -- On a provider that finds a record at the handle's id which is the dummy backend's, and for
  -- summands whose sum is an `int32_t`, a client gets CACHERCISE_SUCCESS and the sum, and nothing
  -- changes; where the sum is none, the call is undefined.
  pub served_sum-adds :
      (env : Env) (r : Cache Heap) (out : SumOut) (handle : Handle) (x y : ℤ) (w : Heap)
      → find_cache hash p handle.cache_id ≡ some r
      → r.fn ≡ dummy_backend env
      → served_sum out handle x y w
        ≡ (if fits_int32 (x +ℤ y) then ok (success, some (x +ℤ y), w) else fault undefined)
  unfolding served_sum Handlers.sum Handlers.sum_found compute_sum sum_answer
  served_sum-adds env r out handle x y w f b =
      let fn : r.fn.sum ≡ compute_sum = ap (λ (t : _). t.sum) b ∙ dummy_backend-sum env in
      elim (Bool-cases (fits_int32 (x +ℤ y))) [
        | inl t ↦ rw (f, fn, compute_sum, t) refl
        | inr t ↦ rw (f, fn, compute_sum, t) refl
      ]

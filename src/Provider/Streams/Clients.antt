-- ===== src/Provider/Streams/Clients.antt =====
-- The handlers of src/provider.c for the clients' RPCs, as streams, and any request as one.
use cachercise.Base.{◌*◌, Option, none, some, [], ◌∷◌}
use cachercise.Base.Run.{Run, ok, ◌>>=◌}
use cachercise.Common.{success, err_from_mercury, err_invalid_cache, CacheId, u64, to_int32}
use cachercise.Table.{UtHash}
use cachercise.Messages.{HelloIn, SumIn, SumOut, IoIn, IoOut}
use cachercise.Provider.Handlers.{scratch_of}
use cachercise.Provider.{Cache, find_cache}
use cachercise.Provider.Streams.{Stream, done, access, Shared, reads, uses, get_input}

module _ {W T : Type 0} (hash : UtHash T (Cache W)) where
  -- Find the cache and call it; the pointer to the cache is used once.
  unfoldable pub on_cache :
      {A : Type 0} → CacheId → A → (Cache W → W → Run (A × W)) → Stream (Shared hash) A
  on_cache id absent call =
      access (reads hash (λ p. ok (find_cache hash p id)))
        λ found. elim found [ none ↦ done absent | some _ ↦ access (uses hash id call) done ]

  -- `hello` does not respond.
  unfoldable pub hello_received : Option HelloIn → Stream (Shared hash) (Unit {0})
  unfolding on_cache
  hello_received none = done tt
  hello_received (some input) =
      on_cache input.cache_id tt (λ r w. do w' ← r.fn.hello r.ctx w; ok (tt, w'))

  unfoldable pub hello_stream : Option HelloIn → Stream (Shared hash) (Unit {0})
  unfolding hello_received
  hello_stream received = access (get_input hash received) hello_received

  unfoldable pub sum_received : SumOut → Option SumIn → Stream (Shared hash) SumOut
  unfolding on_cache
  sum_received out none = done (record out { ret = err_from_mercury })
  sum_received out (some input) =
      on_cache input.cache_id (record out { ret = err_invalid_cache })
        λ r w. do
          (result, w') ← r.fn.sum r.ctx input.x input.y w
          ok (record { result = result; ret = success }, w')

  unfoldable pub sum_stream : SumOut → Option SumIn → Stream (Shared hash) SumOut
  unfolding sum_received
  sum_stream out received = access (get_input hash received) (sum_received out)

  unfoldable pub io_received : IoOut → Option IoIn → Stream (Shared hash) IoOut
  unfolding on_cache scratch_of
  io_received out none = done (record out { ret = err_from_mercury })
  io_received out (some input) =
      on_cache input.cache_id (record out { ret = err_invalid_cache })
        λ r w. do
          (result, buffer, w') ←
              r.fn.io r.ctx input.count input.offset (input.scratch ∷ []) (to_int32 input.kind) w
          ok (
            record {
              bytes = u64 (result * 8);
              scratch = scratch_of buffer input.scratch;
              result = result;
              ret = success;
            },
            w',
          )

  unfoldable pub io_stream : IoOut → Option IoIn → Stream (Shared hash) IoOut
  unfolding io_received
  io_stream out received = access (get_input hash received) (io_received out)

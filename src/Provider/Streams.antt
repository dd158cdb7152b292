-- ===== src/Provider/Streams.antt =====
-- The handlers of src/provider.c on several execution streams of the provider's pool: a handler is a
-- resumption, and the accesses to what the handlers share are its steps: the lookup of a key in the
-- table of caches, the addition and the deletion of one, the load and the store of `num_caches`, and
-- each call of a backend. No lock orders them. An access is taken as a whole, sequentially
-- consistent, though uthash and the backends may be interrupted: the schedules are a part of the
-- program's. What two threads do inside a call of the dummy backend is in Dummy/Threads.antt.

pub mod Admin
pub mod Alone
pub mod Clients
pub mod Requests
pub mod Schedules
pub mod Freed
pub mod Lost
use cachercise.Base.{
  ℕ, ◌+◌, ◌-◌, ◌*◌, ◌^◌, Bool, true, false, String, Option, none, some, List, [], ◌∷◌, ltb, ◌==◌,
  if◌then◌else◌,
}
use cachercise.Base.Run.{Run, ok, fault, undefined, ◌>>=◌, defined}
use cachercise.Common.{
  ReturnCode, success, err_from_mercury, err_invalid_token, err_invalid_backend, err_invalid_cache,
  is_success, CacheId, Ptr, u64, to_int32,
}
use cachercise.Backend.{BackendImpl}
use cachercise.Table.{UtHash}
use cachercise.Messages.{
  CreateCacheIn, CreateCacheOut, CloseCacheIn, CloseCacheOut, ListCachesIn, ListCachesOut, HelloIn,
  SumIn, SumOut, IoIn, IoOut,
}
use cachercise.Provider.Handlers.{scratch_of, fill_ids}
use cachercise.Provider.{Cache, Provider, check_token, find_backend_impl, find_cache}

-- What is left to do of a handler that gives an `A`, over a shared state `S`.
pub data Stream (S A : Type 0) : Type 1 where
  done : A → Stream S A
  access : {X : Type 0} → (S → Run (X × S)) → (X → Stream S A) → Stream S A

module _ {S : Type 0} where
  unfoldable pub followed_by : {A B : Type 0} → Stream S A → (A → Stream S B) → Stream S B
  followed_by (done a) f = f a
  followed_by (access g k) f = access g (λ x. followed_by (k x) f)

  -- A handler that nothing interrupts.
  unfoldable pub alone : {A : Type 0} → Stream S A → S → Run (A × S)
  alone (done a) s = ok (a, s)
  alone (access g k) s = do (x, s') ← g s; alone (k x) s'

  -- One turn: an access, if there is one left.
  unfoldable pub turn : {A : Type 0} → Stream S A → S → Run (Stream S A × S)
  turn (done a) s = ok (done a, s)
  turn (access g k) s = do (x, s') ← g s; ok (k x, s')

-- The handlers under way, by number, and what they share.
pub record System (S A : Type 0) : Type 1 where
  pub shared : S
  pub stream : ℕ → Stream S A

abbrev pub replaced : {S A : Type 0} → (ℕ → Stream S A) → ℕ → Stream S A → ℕ → Stream S A
replaced f t c u = if u == t then c else f u

-- The turns in the order of the schedule. A fault of one handler is the end of the process.
unfoldable pub interleave : {S A : Type 0} → List ℕ → System S A → Run (System S A)
interleave [] s = ok s
interleave (t ∷ ts) s = do
  (c, m) ← turn (s.stream t) s.shared
  interleave ts (record { shared = m; stream = replaced s.stream t c })

module _ {W T : Type 0} (hash : UtHash T (Cache W)) where
  abbrev pub Shared : Type 0
  Shared = Provider W T × W

  abbrev pub reads : {X : Type 0} → (Provider W T → Run X) → Shared → Run (X × Shared)
  reads f (p, w) = do x ← f p; ok (x, (p, w))

  abbrev pub stores : (Provider W T → Provider W T) → Shared → Run (Unit {0} × Shared)
  stores f (p, w) = ok (tt, (f p, w))

  -- A use of the cache behind a pointer that `find_cache` gave for `id`. The cache is freed as it leaves
  -- the table, and what is freed must not be used.
  abbrev pub uses : {X : Type 0} → CacheId → (Cache W → W → Run (X × W)) → Shared → Run (X × Shared)
  uses id f (p, w) = do r ← defined (find_cache hash p id); (x, w') ← f r w; ok (x, (p, w'))

  -- margo_get_input
  abbrev pub get_input : {X : Type 0} → X → Shared → Run (X × Shared)
  get_input input = reads (λ p. ok input)

  -- provider->num_caches += 1 and -= 1: a load and a store
  unfoldable pub count : (ℕ → ℕ) → Stream Shared (Unit {0})
  count change =
      access (reads (λ p. ok p.num_caches))
        λ n. access (stores (λ p. record p { num_caches = u64 (change n) })) done

  unfoldable pub add_cache_stream : Cache W → Stream Shared ReturnCode
  unfolding count followed_by
  add_cache_stream cache = access (reads (λ p. ok (find_cache hash p cache.id))) λ existing.
      elim existing [
        | some _ ↦ done err_invalid_cache
        | none ↦
            access (stores (λ p. record p { caches = hash.add cache.id cache p.caches }))
              λ _. followed_by (count (λ n. n + 1)) λ _. done success
      ]

  -- HASH_DEL, free and the count, after the backend's answer
  unfoldable pub drop_cache_stream : CacheId → ReturnCode → Stream Shared ReturnCode
  unfolding count followed_by
  drop_cache_stream id ret =
      access
        (λ (p, w). do
          r ← defined (find_cache hash p id)
          ok (tt, (record p { caches = hash.del id p.caches }, w)))
        λ _. followed_by (count (λ n. n + 2 ^ 64 - 1)) λ _. done ret

  unfoldable pub remove_cache_stream : CacheId → (close_cache : Bool) → Stream Shared ReturnCode
  unfolding drop_cache_stream
  remove_cache_stream id close_cache = access (reads (λ p. ok (find_cache hash p id))) λ found.
      elim found [
        | none ↦ done err_invalid_cache
        | some _ ↦
            if close_cache
            then access (uses id (λ r w. r.fn.close_cache r.ctx w)) (drop_cache_stream id)
            else drop_cache_stream id success
      ]

  -- Past the token, or away.
  abbrev pub admitted : {A : Type 0} → Option String → A → Stream Shared A → Stream Shared A
  admitted token refusal rest =
      access (reads (λ p. check_token p token)) λ valid. if valid then rest else done refusal

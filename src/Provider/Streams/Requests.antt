-- ===== src/Provider/Streams/Requests.antt =====
-- Any request to a provider of src/provider.c: the stream of its handler, and the handler as one step.
use cachercise.Base.{◌≡◌, refl, ◌∙◌, inl, inr, Bool, Option}
use cachercise.Base.Run.{Run, ok, ◌>>=◌, Run-cases}
use cachercise.Common.{CacheId}
use cachercise.Table.{UtHash}
use cachercise.Messages.{
  CreateCacheIn, CreateCacheOut, CloseCacheIn, CloseCacheOut, ListCachesIn, ListCachesOut, HelloIn,
  SumIn, SumOut, IoIn, IoOut,
}
use cachercise.Provider.Handlers
use cachercise.Provider.{Cache, Provider}
use cachercise.Provider.Streams.{Stream, done, followed_by, alone, Shared}
use cachercise.Provider.Streams.Admin.{
  create_stream, open_stream, close_stream, destroy_stream, list_stream,
}
use cachercise.Provider.Streams.Clients.{hello_stream, sum_stream, io_stream}
use cachercise.Provider.Streams.Alone.{alone-followed_by, hello-alone, sum-alone, io-alone}
use cachercise.Provider.Streams.Alone.Admin.{
  create-alone, open-alone, close-alone, destroy-alone, list-alone,
}

-- What a handler gets: its input, the contents of `out`, and what `calloc` and `uuid_generate` give.
pub data Request : Type 0 where
  create_cache open_cache :
      (memory : Bool) (uuid : CacheId) (out : CreateCacheOut) → Option CreateCacheIn → Request
  close_cache destroy_cache : Option CloseCacheIn → Request
  list_caches : (memory : Bool) (out : ListCachesOut) → Option ListCachesIn → Request
  hello : Option HelloIn → Request
  sum : (out : SumOut) → Option SumIn → Request
  io : (out : IoOut) → Option IoIn → Request

pub data Answer : Type 0 where
  made : CreateCacheOut → Answer
  ended : CloseCacheOut → Answer
  listed : ListCachesOut → Answer
  greeted : Answer
  summed : SumOut → Answer
  transferred : IoOut → Answer

module _ {W T : Type 0} (hash : UtHash T (Cache W)) where
  abbrev answering :
      {A : Type 0} → (A → Answer) → Stream (Shared hash) A → Stream (Shared hash) Answer
  answering reply m = followed_by m (λ a. done (reply a))

  -- The eight handlers.
  unfoldable pub handler : Request → Stream (Shared hash) Answer
  unfolding followed_by create_stream open_stream close_stream destroy_stream list_stream
      hello_stream sum_stream io_stream
  handler (create_cache memory uuid out input) =
      answering made (create_stream hash memory uuid out input)
  handler (open_cache memory uuid out input) =
      answering made (open_stream hash memory uuid out input)
  handler (close_cache input) = answering ended (close_stream hash input)
  handler (destroy_cache input) = answering ended (destroy_stream hash input)
  handler (list_caches memory out input) = answering listed (list_stream hash memory out input)
  handler (hello input) = answering (λ _. greeted) (hello_stream hash input)
  handler (sum out input) = answering summed (sum_stream hash out input)
  handler (io out input) = answering transferred (io_stream hash out input)

  -- What the handler does in one step.
  unfoldable pub at_once : Request → Provider W T → W → Run (Answer × Shared hash)
  at_once (create_cache memory uuid out input) p w = do
    (o, p', w') ← Handlers.create_cache hash memory uuid out p w input
    ok (made o, (p', w'))
  at_once (open_cache memory uuid out input) p w = do
    (o, p', w') ← Handlers.open_cache hash memory uuid out p w input
    ok (made o, (p', w'))
  at_once (close_cache input) p w = do
    (o, p', w') ← Handlers.close_cache hash p w input
    ok (ended o, (p', w'))
  at_once (destroy_cache input) p w = do
    (o, p', w') ← Handlers.destroy_cache hash p w input
    ok (ended o, (p', w'))
  at_once (list_caches memory out input) p w = do
    o ← Handlers.list_caches hash memory out p input
    ok (listed o, (p, w))
  at_once (hello input) p w = do w' ← Handlers.hello hash p w input; ok (greeted, (p, w'))
  at_once (sum out input) p w = do (o, w') ← Handlers.sum hash p w out input; ok (summed o, (p, w'))
  at_once (io out input) p w = do
    (o, w') ← Handlers.io hash p w out input
    ok (transferred o, (p, w'))

  answering-alone :
      {A B : Type 0} (reply : A → Answer) (m : Stream (Shared hash) A) (s : Shared hash) (x : Run B)
      (f : B → A × Shared hash)
      → alone m s ≡ (x >>= λ b. ok (f b))
      → alone (answering reply m) s ≡ (x >>= λ b. ok (reply (f b).0, (f b).1))
  unfolding alone
  answering-alone reply m s x f e =
      alone-followed_by m (λ a. done (reply a)) s
      ∙ rw e (elim (Run-cases x) [ inl (b, c) ↦ rw c refl | inr (y, c) ↦ rw c refl ])

  -- Whatever the request, the provider and the backends' memory, a handler whose steps nothing
  -- interrupts does what it does in one step: it gives the same answer and leaves the same table, count
  -- and memory, or has the same fault.
  pub handler-alone :
      (r : Request) (p : Provider W T) (w : W) → alone (handler r) (p, w) ≡ at_once r p w
  unfolding handler at_once
  handler-alone (create_cache memory uuid out input) p w =
      answering-alone made _ (p, w) _ _ (create-alone hash p w memory uuid out input)
  handler-alone (open_cache memory uuid out input) p w =
      answering-alone made _ (p, w) _ _ (open-alone hash p w memory uuid out input)
  handler-alone (close_cache input) p w =
      answering-alone ended _ (p, w) _ _ (close-alone hash p w input)
  handler-alone (destroy_cache input) p w =
      answering-alone ended _ (p, w) _ _ (destroy-alone hash p w input)
  handler-alone (list_caches memory out input) p w =
      answering-alone listed _ (p, w) _ _ (list-alone hash p w memory out input)
  handler-alone (hello input) p w =
      answering-alone (λ _. greeted) _ (p, w) _ _ (hello-alone hash p w input)
  handler-alone (sum out input) p w =
      answering-alone summed _ (p, w) _ _ (sum-alone hash p w out input)
  handler-alone (io out input) p w =
      answering-alone transferred _ (p, w) _ _ (io-alone hash p w out input)

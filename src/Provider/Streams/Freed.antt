-- ===== src/Provider/Streams/Freed.antt =====
-- A client's request to a provider of src/provider.c while an admin removes the cache.
use cachercise.Base.{
  ◌≡◌, refl, ap, ◌∙◌, Bool, true, false, String, Option, none, some, List, [], ◌∷◌, ◌++◌, ◌==◌, ℕ,
  Option-cases, if◌then◌else◌, inl, inr, replicate,
}
use mathlib.Core.Path.{subst}
use mathlib.Core.Option.{some-injective}
use cachercise.Base.Run.{Run, ok, fault, undefined, Returns-ok}
use cachercise.Common.{CacheId, Ptr}
use cachercise.Table.{UtHash}
use cachercise.Messages.{CloseCacheIn, CloseCacheOut}
use cachercise.Provider.Handlers
use cachercise.Provider.Outcomes.{
  Closed, denied, missing, gone, close_cache-Closed, destroy_cache-Closed, check_token-true,
  Checkable,
}
use cachercise.Provider.Sound.{IsSound}
use cachercise.Provider.{Cache, Provider, check_token, find_cache}
use cachercise.Provider.Streams.{Stream, done, access, followed_by, turn, interleave, Shared, uses}
use cachercise.Provider.Streams.Clients.{
  on_cache, hello_received, sum_received, io_received, hello_stream, sum_stream, io_stream,
}
use cachercise.Provider.Streams.Requests.{
  Request, close_cache, destroy_cache, hello, sum, io, Answer, handler, ended, at_once,
  handler-alone,
}
use cachercise.Provider.Streams.Schedules.{take_turns, advance, alone-turns, Advanced-then}

-- The cache that a client's request asks for.
abbrev pub asked : Request → Option CacheId
asked (hello (some input)) = some input.cache_id
asked (sum _ (some input)) = some input.cache_id
asked (io _ (some input)) = some input.cache_id
asked _ = none

module _ {W T : Type 0} (hash : UtHash T (Cache W)) where
  -- The stream is about to use the cache of `id`.
  record Holding (id : CacheId) (c : Stream (Shared hash) Answer) : Type 1 where
    lost :
        (p : Provider W T) (w : W) → find_cache hash p id ≡ none → turn c (p, w) ≡ fault undefined

  -- Two turns take a client's request to the use of its cache.
  record Found (id : CacheId) (p : Provider W T) (w : W) (c : Stream (Shared hash) Answer)
      : Type 1 where
    held : Stream (Shared hash) Answer
    taken : take_turns 2 c (p, w) ≡ ok (held, (p, w))
    holding : Holding id held

  on_cache-Found :
      {A : Type 0} (id : CacheId) (absent : A) (call : Cache W → W → Run (A × W))
      (reply : A → Answer) (p : Provider W T) (w : W) (r : Cache W)
      {c : Stream (Shared hash) Answer}
      → find_cache hash p id ≡ some r
      → turn c (p, w)
        ≡ ok (followed_by (on_cache hash id absent call) (λ a. done (reply a)), (p, w))
      → Found id p w c
  unfolding on_cache followed_by turn take_turns
  on_cache-Found id absent call reply p w r e h = record {
    held = access (uses hash id call) (λ a. done (reply a));
    taken = rw (h, e) refl;
    holding = record { lost = λ q v n. rw n refl };
  }

  handler-Found :
      (request : Request) (id : CacheId) (p : Provider W T) (w : W) (r : Cache W)
      → asked request ≡ some id
      → find_cache hash p id ≡ some r
      → Found id p w (handler hash request)
  unfolding handler followed_by turn hello_stream hello_received sum_stream sum_received io_stream
      io_received
  handler-Found (hello (some input)) id p w r a e =
      let same : input.cache_id ≡ id = some-injective _ _ a in
      subst (λ i. Found i p w (handler hash (hello (some input)))) same
        (on_cache-Found input.cache_id _ _ _ p w r (ap (find_cache hash p) same ∙ e) refl)
  handler-Found (sum out (some input)) id p w r a e =
      let same : input.cache_id ≡ id = some-injective _ _ a in
      subst (λ i. Found i p w (handler hash (sum out (some input)))) same
        (on_cache-Found input.cache_id _ _ _ p w r (ap (find_cache hash p) same ∙ e) refl)
  handler-Found (io out (some input)) id p w r a e =
      let same : input.cache_id ≡ id = some-injective _ _ a in
      subst (λ i. Found i p w (handler hash (io out (some input)))) same
        (on_cache-Found input.cache_id _ _ _ p w r (ap (find_cache hash p) same ∙ e) refl)
  handler-Found _ id p w r a e = cc

abbrev two : Request → Request → ℕ → Request
two a b t = if t == 0 then a else b

accepted-Checkable :
    {W T : Type 0} (p : Provider W T) (token : Option String)
    → check_token p token ≡ ok true
    → Checkable p token
accepted-Checkable p token e = elim (check_token-true p token e) [
  | inl n ↦ inl n
  | inr (same, n) ↦ elim (Option-cases token) [ inl f ↦ absurd (n f) | inr (s, f) ↦ inr (s, f) ]
]

-- The request to close a cache, or to destroy it.
abbrev pub removal : (close : Bool) → CloseCacheIn → Request
removal true input = close_cache (some input)
removal false input = destroy_cache (some input)

module _ {W T : Type 0} (hash : UtHash T (Cache W)) (IsHeap : W → Type 0)
    (live : W → Ptr → Bool) where
  Closed-absent :
      (p q : Provider W T) (w v : W) (input : CloseCacheIn) (out : CloseCacheOut) (r : Cache W)
      → check_token p input.token ≡ ok true
      → find_cache hash p input.id ≡ some r
      → Closed hash IsHeap live p w input out q v
      → find_cache hash q input.id ≡ none
  Closed-absent p q w v input out r c e (denied d a b f) = cc
  Closed-absent p q w v input out r c e (missing d a b f g) = cc
  Closed-absent p q w v input out r c e (gone d r' a g) = g.absent

  removal-removes :
      (p : Provider W T) (w : W)
      → IsSound hash IsHeap live p w
      → (close : Bool) (input : CloseCacheIn) (r : Cache W) → check_token p input.token ≡ ok true
      → find_cache hash p input.id ≡ some r
      → (a : Answer) × (q : Provider W T) × (v : W) × (at_once hash (removal close input) p w
          ≡ ok (a, (q, v)))
        × (find_cache hash q input.id ≡ none)
  unfolding at_once
  removal-removes p w s true input r c e =
      let ((out, q, v), run, closed) =
        Returns-ok _ (Handlers.close_cache hash p w (some input))
          (close_cache-Closed hash IsHeap live p w s input (accepted-Checkable p input.token c)) in
      (ended out, q, v, rw run refl, Closed-absent p q w v input out r c e closed)
  removal-removes p w s false input r c e =
      let ((out, q, v), run, (closed, _)) =
        Returns-ok _ (Handlers.destroy_cache hash p w (some input)) (
          destroy_cache-Closed hash IsHeap live p w s input (accepted-Checkable p input.token c)) in
      (ended out, q, v, rw run refl, Closed-absent p q w v input out r c e closed)

  -- On a sound provider, let a client's request ask for a cache that is there, while an admin with the
  -- right token closes or destroys that cache. Then there is an order of the steps of the two handlers in
  -- which the client's handler uses the cache after it has been freed.
  pub removal-frees :
      (p : Provider W T) (w : W)
      → IsSound hash IsHeap live p w
      → (request : Request) (close : Bool) (input : CloseCacheIn) (r : Cache W)
      → asked request ≡ some input.id
      → check_token p input.token ≡ ok true
      → find_cache hash p input.id ≡ some r
      → (schedule : List ℕ) × (interleave schedule (record {
        shared = (p, w);
        stream = λ t. if t == 0 then handler hash request else handler hash (removal close input);
      })
          ≡ fault undefined)
  unfolding interleave
  removal-frees p w s request close input r a c e =
      let found = handler-Found hash request input.id p w r a e in
      let (answer, q, v, run, absent) = removal-removes p w s close input r c e in
      let second = handler hash (removal close input) in
      let f₀ : ℕ → Stream (Shared hash) Answer =
        λ t. if t == 0 then handler hash request else second in
      let (n, ends) =
        alone-turns second answer (p, w) (q, v)
          (handler-alone hash (removal close input) p w ∙ run) in
      let held = advance 0 2 _ found.held f₀ (p, w) (p, w) refl found.taken in
      let gone =
        advance 1 n second (done answer) held.stream (p, w) (q, v) (held.others 1 refl) ends in
      (
        replicate 2 0 ++ replicate n 1 ++ 0 ∷ [],
        Advanced-then (replicate n 1 ++ 0 ∷ []) held
            ∙ Advanced-then (0 ∷ []) gone
            ∙ rw (gone.others 0 refl, held.reached, found.holding.lost q v absent) refl,
      )

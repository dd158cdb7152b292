-- ===== src/Provider/Streams/Alone.antt =====
-- The functions of src/provider.c on a provider, and the handlers for the clients, with nothing that
-- interrupts them.
pub mod Admin
use cachercise.Base.{
  ℕ, ◌+◌, ◌-◌, ◌*◌, ◌^◌, ◌≡◌, refl, ◌∙◌, String, Bool, true, false, Option, none, some, List, [],
  ◌∷◌, if◌then◌else◌, Option-cases, Bool-cases, inl, inr,
}
use cachercise.Base.Run.{Run, ok, fault, ◌>>=◌, Run-cases}
use cachercise.Common.{ReturnCode, success, CacheId, Ptr, is_success}
use cachercise.Backend.{BackendImpl}
use cachercise.Table.{UtHash}
use cachercise.Messages.{
  CreateCacheIn, CreateCacheOut, CloseCacheIn, CloseCacheOut, ListCachesIn, ListCachesOut, HelloIn,
  SumIn, SumOut, IoIn, IoOut,
}
use cachercise.Provider.Handlers
use cachercise.Provider.{
  Cache, Provider, find_cache, check_token, find_backend_impl, add_cache, remove_cache, drop_cache,
}
use cachercise.Provider.Streams.{
  Stream, done, access, followed_by, alone, Shared, admitted, reads, uses, count, add_cache_stream,
  remove_cache_stream, drop_cache_stream,
}
use cachercise.Provider.Streams.Admin.{
  install_stream, make_with, make_from, create_stream, open_stream, close_received, close_stream,
  destroy_found_stream, destroy_received, destroy_stream, fill_from, list_received, list_stream,
}
use cachercise.Provider.Streams.Clients.{
  on_cache, hello_received, hello_stream, sum_received, sum_stream, io_received, io_stream,
}

-- What follows a stream runs after it.
pub alone-followed_by :
    {S A B : Type 0} (m : Stream S A) (f : A → Stream S B) (s : S)
    → alone (followed_by m f) s ≡ (alone m s >>= λ (a, s'). alone (f a) s')
unfolding alone followed_by
alone-followed_by (done a) f s = refl
alone-followed_by (access g k) f s = elim (Run-cases (g s)) [
  | inl ((x, s'), e) ↦ rw e (alone-followed_by (k x) f s')
  | inr (x, e) ↦ rw e refl
]

module _ {W T : Type 0} (hash : UtHash T (Cache W)) (p : Provider W T) (w : W) where
  pub uses-alone :
      {A : Type 0} (id : CacheId) (call : Cache W → W → Run (A × W)) (r : Cache W)
      → find_cache hash p id ≡ some r
      → alone (access (uses hash id call) done) (p, w) ≡ (call r w >>= λ (a, w'). ok (a, (p, w')))
  unfolding alone
  uses-alone id call r e = elim (Run-cases (call r w)) [
    | inl ((a, w'), c) ↦ rw (e, c) refl
    | inr (x, c) ↦ rw (e, c) refl
  ]

  on_cache-alone :
      {A : Type 0} (id : CacheId) (absent : A) (call : Cache W → W → Run (A × W))
      → alone (on_cache hash id absent call) (p, w) ≡ (
          elim (find_cache hash p id) [ none ↦ ok (absent, w) | some r ↦ call r w ] >>= λ (a, w').
          ok (a, (p, w')))
  unfolding alone on_cache
  on_cache-alone id absent call = elim (Option-cases (find_cache hash p id)) [
    | inl e ↦ rw e refl
    | inr (r, e) ↦ rw e (uses-alone id call r e)
  ]

  pub hello-alone :
      (received : Option HelloIn)
      → alone (hello_stream hash received) (p, w)
        ≡ (Handlers.hello hash p w received >>= λ w'. ok (tt, (p, w')))
  unfolding alone hello_stream hello_received Handlers.hello Handlers.hello_found
  hello-alone none = refl
  hello-alone (some input) = elim (Option-cases (find_cache hash p input.cache_id)) [
    | inl e ↦ rw (on_cache-alone input.cache_id tt _, e) refl
    | inr (r, e) ↦ elim (Run-cases (r.fn.hello r.ctx w)) [
      | inl (w', c) ↦ rw (on_cache-alone input.cache_id tt _, e, c) refl
      | inr (x, c) ↦ rw (on_cache-alone input.cache_id tt _, e, c) refl
    ]
  ]

  pub sum-alone :
      (out : SumOut) (received : Option SumIn)
      → alone (sum_stream hash out received) (p, w)
        ≡ (Handlers.sum hash p w out received >>= λ (o, w'). ok (o, (p, w')))
  unfolding alone sum_stream sum_received Handlers.sum Handlers.sum_found
  sum-alone out none = refl
  sum-alone out (some input) =
      rw (on_cache-alone input.cache_id _ _)
        (elim (Option-cases (find_cache hash p input.cache_id)) [
          | inl e ↦ rw e refl
          | inr (r, e) ↦ rw e refl
        ])

  pub io-alone :
      (out : IoOut) (received : Option IoIn)
      → alone (io_stream hash out received) (p, w)
        ≡ (Handlers.io hash p w out received >>= λ (o, w'). ok (o, (p, w')))
  unfolding alone io_stream io_received Handlers.io Handlers.io_found Handlers.scratch_of
  io-alone out none = refl
  io-alone out (some input) =
      rw (on_cache-alone input.cache_id _ _)
        (elim (Option-cases (find_cache hash p input.cache_id)) [
          | inl e ↦ rw e refl
          | inr (r, e) ↦ rw e refl
        ])

  add_cache-alone :
      (r : Cache W)
      → alone (add_cache_stream hash r) (p, w)
        ≡ ok ((add_cache hash p r).0, ((add_cache hash p r).1, w))
  unfolding alone add_cache_stream add_cache count followed_by
  add_cache-alone r = elim (Option-cases (find_cache hash p r.id)) [
    | inl e ↦ rw (e, add_cache) refl
    | inr (old, e) ↦ rw (e, add_cache) refl
  ]

  drop_cache-alone :
      (id : CacheId) (ret : ReturnCode) (r : Cache W)
      → find_cache hash p id ≡ some r
      → alone (drop_cache_stream hash id ret) (p, w) ≡ ok (ret, (drop_cache hash p id, w))
  unfolding alone drop_cache_stream drop_cache count followed_by
  drop_cache-alone id ret r e = rw e refl

  admitted-alone :
      {A : Type 0} (token : Option String) (d : A) (rest : Stream (Shared hash) A)
      → alone (admitted hash token d rest) (p, w)
        ≡ (check_token p token >>= λ v. if v then alone rest (p, w) else ok (d, (p, w)))
  unfolding alone
  admitted-alone token d rest = elim (Run-cases (check_token p token)) [
    | inl (v, c) ↦ rw c (elim (Bool-cases v) [ inl t ↦ rw t refl | inr t ↦ rw t refl ])
    | inr (x, c) ↦ rw c refl
  ]

  pub install-alone :
      (memory : Bool) (uuid : CacheId) (out : CreateCacheOut) (b : BackendImpl W) (c : Ptr)
      → alone (install_stream hash memory uuid out b c) (p, w)
        ≡ (Handlers.install hash memory uuid b c p w >>= λ (o, p', w'). ok (o, (p', w')))
  unfolding alone install_stream Handlers.install
  install-alone false uuid out b c = refl
  install-alone true uuid out b c =
      alone-followed_by (add_cache_stream hash _) _ (p, w) ∙ rw (add_cache-alone _) refl

module _ {W T : Type 0} (hash : UtHash T (Cache W)) where
  abbrev after : ReturnCode → Provider W T → W → Run (ReturnCode × Provider W T × W)
  after ret p w = ok (ret, p, w)

  remove_with-alone :
      (p : Provider W T) (w : W) (id : CacheId) (close : Bool) (r : Cache W)
      → find_cache hash p id ≡ some r
      → alone
          (if close
            then access
                (uses hash id (λ r' v. r'.fn.close_cache r'.ctx v))
                (drop_cache_stream hash id)
            else drop_cache_stream hash id success)
          (p, w)
        ≡ ((if close then r.fn.close_cache r.ctx w else ok (success, w))
            >>= (λ (ret, w'). after ret (drop_cache hash p id) w')
            >>= λ (ret, p', w'). ok (ret, (p', w')))
  unfolding alone
  remove_with-alone p w id false r e = drop_cache-alone hash p w id success r e
  remove_with-alone p w id true r e = elim (Run-cases (r.fn.close_cache r.ctx w)) [
    | inl ((ret, w'), c) ↦ rw (e, c) (drop_cache-alone hash p w' id ret r e)
    | inr (x, c) ↦ rw (e, c) refl
  ]

  pub remove_cache-alone :
      (p : Provider W T) (w : W) (id : CacheId) (close : Bool)
      → alone (remove_cache_stream hash id close) (p, w)
        ≡ (remove_cache hash p id close w >>= λ (ret, p', w'). ok (ret, (p', w')))
  unfolding alone remove_cache_stream remove_cache
  remove_cache-alone p w id close = elim (Option-cases (find_cache hash p id)) [
    | inl e ↦ rw (e, remove_cache) refl
    | inr (r, e) ↦ rw (e, remove_cache) (remove_with-alone p w id close r e)
  ]

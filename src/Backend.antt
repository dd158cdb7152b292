-- ===== src/Backend.antt =====
-- include/cachercise/cachercise-backend.h: the table of functions that a backend gives to the
-- provider. `W` is what the backend's functions read and change: the memory that its contexts live
-- in. A function gets it and returns it. The provider is passed to `create_cache` and `open_cache`
-- for its log only, and is left out.
use cachercise.Base.{ℕ, ◌≡◌, Bool, true, false, not, ◌&&◌, ◌||◌, String, Option, List, ◌==◌}
use cachercise.Base.Int.{ℤ}
use cachercise.Base.Run.{Run, Returns, Yields}
use cachercise.Common.{ReturnCode, success, is_success, Ptr}

pub record BackendImpl (W : Type 0) : Type 0 where
  pub name : String
  pub create_cache : Option String → W → Run (ReturnCode × Ptr × W)
  pub open_cache : Option String → W → Run (ReturnCode × Ptr × W)
  pub close_cache : Ptr → W → Run (ReturnCode × W)
  pub destroy_cache : Ptr → W → Run (ReturnCode × W)
  pub hello : Ptr → W → Run W
  pub sum : Ptr → ℤ → ℤ → W → Run (ℤ × W)
  -- context, count, offset, the buffer behind `scratch`, kind; the buffer comes back as changed
  pub io : Ptr → ℕ → ℕ → List ℕ → ℕ → W → Run (ℕ × List ℕ × W)

-- What the provider relies on. `IsHeap` is the backend's invariant on its memory, and `live` says
-- which contexts are in use.
module _ {W : Type 0} (IsHeap : W → Type 0) (live : W → Ptr → Bool) where
  abbrev pub SameLive : W → W → Type 0
  SameLive w w' = (q : Ptr) → live w' q ≡ live w q

  -- A success hands out a context that was not in use; a failure none.
  pub data Created (w : W) (p : Ptr) (w' : W) : ReturnCode → Type 0 where
    fresh :
        live w p ≡ false → ((q : Ptr) → live w' q ≡ ((q == p) || live w q)) → Created w p w' success
    refused : {r : ReturnCode} → is_success r ≡ false → SameLive w w' → Created w p w' r

  abbrev pub Released : W → Ptr → W → Type 0
  Released w p w' = (q : Ptr) → live w' q ≡ (not (q == p) && live w q)

  pub record Contract (b : BackendImpl W) : Type 0 where
    pub creates :
        (config : Option String) (w : W)
        → IsHeap w
        → Yields (λ (r, p, w'). IsHeap w' × Created w p w' r) (b.create_cache config w)
    pub opens :
        (config : Option String) (w : W)
        → IsHeap w
        → Yields (λ (r, p, w'). IsHeap w' × Created w p w' r) (b.open_cache config w)
    pub closes :
        (p : Ptr) (w : W)
        → IsHeap w
        → live w p ≡ true
        → Returns (λ (r, w'). IsHeap w' × Released w p w') (b.close_cache p w)
    pub destroys :
        (p : Ptr) (w : W)
        → IsHeap w
        → live w p ≡ true
        → Returns (λ (r, w'). IsHeap w' × Released w p w') (b.destroy_cache p w)
    pub greets :
        (p : Ptr) (w : W)
        → IsHeap w
        → live w p ≡ true
        → Returns (λ w'. IsHeap w' × SameLive w w') (b.hello p w)
    pub sums :
        (p : Ptr) (x y : ℤ) (w : W)
        → IsHeap w
        → live w p ≡ true
        → Yields (λ (s, w'). IsHeap w' × SameLive w w') (b.sum p x y w)
    pub transfers :
        (p : Ptr) (count offset : ℕ) (scratch : List ℕ) (kind : ℕ) (w : W)
        → IsHeap w
        → live w p ≡ true
        → Yields (λ (n, s, w'). IsHeap w' × SameLive w w') (b.io p count offset scratch kind w)

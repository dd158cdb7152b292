-- ===== src/Provider/Restores.antt =====
-- Registering the RPCs of a provider, and deregistering them.
use mathlib.Core.List.{append_assoc}
use mathlib.Core.Path.{ap₂}
use text.Mathlib.TextEquality.{eq_iff}
use cachercise.Base.{
  ℕ, ◌≡◌, refl, sym, true, false, ◌||◌, String, List, [], ◌∷◌, ◌++◌, arith, ap, ◌∙◌, Bool-cases,
  inl, inr,
}
use cachercise.Common.{Ptr}
use cachercise.Margo.{Margo, Rpc, is_registered, without, has_id}
use cachercise.Provider.Lifecycle.{register_rpcs, deregister_rpcs}

without-id : (i : ℕ) (rs : List Rpc) → has_id i rs ≡ false → without i rs ≡ rs
without-id i [] h = refl
without-id i (r ∷ rs) h = ground (arith, without-id i rs)

without-append : (i : ℕ) (rs ss : List Rpc) → without i (rs ++ ss) ≡ without i rs ++ without i ss
without-append i [] ss = refl
without-append i (r ∷ rs) ss = ground (arith, without-append i rs ss)

has_id-append : (i : ℕ) (rs ss : List Rpc) → has_id i (rs ++ ss) ≡ (has_id i rs || has_id i ss)
has_id-append i [] ss = refl
has_id-append i (r ∷ rs) ss = ground (arith, has_id-append i rs ss)

abbrev pub Within : List Rpc → List Rpc → Type 0
Within b rs = (i : ℕ) → has_id i b ≡ true → has_id i rs ≡ true

without_first : (r : Rpc) (b : List Rpc) → has_id r.id b ≡ false → without r.id (r ∷ b) ≡ b
without_first r b h = ground (arith, without-id r.id b)

module _ {M : Type 0} (margo : Margo M) where
  not-Within :
      (b : List Rpc) (i : ℕ) (m : M)
      → Within b (margo.rpcs m)
      → has_id i (margo.rpcs m) ≡ false
      → has_id i b ≡ false
  not-Within b i m h n = elim (Bool-cases (has_id i b)) [ inl t ↦ cc (h i t) | inr f ↦ f ]

  -- What registering the names in a row does: new RPCs `front` stand before the old ones, under ids
  -- that those do not have, and deregistering the ids takes exactly `front` away again.
  pub record Registered (m m' : M) (ids : List ℕ) : Type 0 where
    pub front : List Rpc
    pub added : margo.rpcs m' ≡ front ++ margo.rpcs m
    pub fresh : (i : ℕ) → has_id i (margo.rpcs m) ≡ true → has_id i front ≡ false
    pub removed :
        (b : List Rpc) (n : M)
        → Within b (margo.rpcs m)
        → margo.rpcs n ≡ front ++ b
        → margo.rpcs (deregister_rpcs margo ids n) ≡ b

  pub register_rpcs-Registered :
      (names : List String) (pid : ℕ) (pool : Ptr) (m : M)
      → Registered m
          (register_rpcs margo names pid pool m).1
          (register_rpcs margo names pid pool m).0
  unfolding register_rpcs deregister_rpcs
  register_rpcs-Registered [] pid pool m = record {
    front = [];
    added = refl;
    fresh = λ i h. refl;
    removed = λ b n h e. e;
  }
  register_rpcs-Registered (name ∷ names) pid pool m =
      let id = (margo.register name pid pool m).0 in
      let m₁ = (margo.register name pid pool m).1 in
      let r : Rpc = record { id = id; name = name; provider_id = pid } in
      let old : has_id id (margo.rpcs m) ≡ false = margo.register-fresh name pid pool m in
      let one : margo.rpcs m₁ ≡ r ∷ margo.rpcs m = margo.register-rpcs name pid pool m in
      let rest = register_rpcs-Registered names pid pool m₁ in
      let wider : Within (margo.rpcs m) (margo.rpcs m₁) = λ i h. ap (has_id i) one ∙ ground arith in
      let has : has_id id (margo.rpcs m₁) ≡ true = ap (has_id id) one ∙ ground arith in
      record {
        front = rest.front ++ r ∷ [];
        added =
            rest.added
            ∙ ap (◌++◌ rest.front) one
            ∙ sym (append_assoc rest.front (r ∷ []) (margo.rpcs m));
        fresh = λ i h.
            has_id-append i rest.front (r ∷ [])
            ∙ ground (arith, rest.fresh i, wider i h, old, ap (λ (j : ℕ). has_id j (margo.rpcs m)));
        removed = λ b n h e.
            rest.removed b (margo.deregister id n) (λ i k. wider i (h i k))
              (margo.deregister-rpcs id n
                ∙ ap (without id) (e ∙ append_assoc rest.front (r ∷ []) b)
                ∙ without-append id rest.front (r ∷ b)
                ∙ ap₂ ◌++◌ (without-id id rest.front (rest.fresh id has))
                    (without_first r b (not-Within b id m h old)));
      }

  pub register_rpcs-callbacks :
      (names : List String) (pid : ℕ) (pool : Ptr) (m : M)
      → margo.callbacks (register_rpcs margo names pid pool m).1 ≡ margo.callbacks m
  unfolding register_rpcs
  register_rpcs-callbacks [] pid pool m = refl
  register_rpcs-callbacks (name ∷ names) pid pool m =
      register_rpcs-callbacks names pid pool _ ∙ margo.register-callbacks name pid pool m

  pub register_rpcs-is_listening :
      (names : List String) (pid : ℕ) (pool : Ptr) (m : M)
      → margo.is_listening (register_rpcs margo names pid pool m).1 ≡ margo.is_listening m
  unfolding register_rpcs
  register_rpcs-is_listening [] pid pool m = refl
  register_rpcs-is_listening (name ∷ names) pid pool m =
      register_rpcs-is_listening names pid pool _ ∙ margo.register-is_listening name pid pool m

  pub deregister_rpcs-callbacks :
      (ids : List ℕ) (m : M) → margo.callbacks (deregister_rpcs margo ids m) ≡ margo.callbacks m
  unfolding deregister_rpcs
  deregister_rpcs-callbacks [] m = refl
  deregister_rpcs-callbacks (i ∷ ids) m =
      deregister_rpcs-callbacks ids (margo.deregister i m) ∙ margo.deregister-callbacks i m

  register_rpcs-keeps :
      (name : String) (names : List String) (pid pid' : ℕ) (pool : Ptr) (m : M)
      → is_registered name pid (margo.rpcs m) ≡ true
      → is_registered name pid (margo.rpcs (register_rpcs margo names pid' pool m).1) ≡ true
  unfolding register_rpcs
  register_rpcs-keeps name [] pid pid' pool m h = h
  register_rpcs-keeps name (n ∷ names) pid pid' pool m h =
      register_rpcs-keeps name names pid pid' pool _
        (ap (is_registered name pid) (margo.register-rpcs n pid' pool m) ∙ ground arith)

  -- A name that stands among those registered is registered afterwards.
  pub register_rpcs-has :
      (name : String) (before after : List String) (pid : ℕ) (pool : Ptr) (m : M)
      → is_registered name pid
          (margo.rpcs (register_rpcs margo (before ++ name ∷ after) pid pool m).1)
        ≡ true
  unfolding register_rpcs
  register_rpcs-has name [] after pid pool m = register_rpcs-keeps name after pid pid pool _ (
      ap (is_registered name pid) (margo.register-rpcs name pid pool m)
      ∙ ground (arith, (eq_iff name name).1 refl))
  register_rpcs-has name (n ∷ before) after pid pool m =
      register_rpcs-has name before after pid pool _

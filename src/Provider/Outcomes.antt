-- ===== src/Provider/Outcomes.antt =====
-- How the handlers `close_cache` and `destroy_cache` of src/provider.c end, and what is left of the
-- cache.
use cachercise.Base.{
  ◌≡◌, ◌≢◌, refl, sym, String, Bool, true, false, Option, none, some, Option-cases, Bool-cases, inl,
  inr, ◌⊎◌, ap, ◌∙◌,
}
use text.Mathlib.Text.{◌==◌ as str_eq}
use text.Mathlib.TextEquality.{eq_iff}
use mathlib.Core.Option.{some-ne-none}
use cachercise.Base.Run.{ok, Returns, Returns-bind, Returns-mono}
use cachercise.Common.{success, err_invalid_cache, err_invalid_token, CacheId, Ptr}
use cachercise.Table.{UtHash}
use cachercise.Messages.{CloseCacheIn, CloseCacheOut}
use cachercise.Provider.Sound.{IsSound}
use cachercise.Provider.Removal.{Gone, remove_cache-Gone, destroy_found-Gone}
use cachercise.Provider.Handlers.{close_cache, destroy_found, destroy_cache}
use cachercise.Provider.{Cache, Provider, check_token, strcmp_eq, find_cache, remove_cache}

-- `check_token` is defined: the provider has no token, or one was sent.
abbrev pub Checkable : {W T : Type 0} → Provider W T → Option String → Type 0
Checkable p token = (p.token ≡ none) ⊎ ((s : String) × (token ≡ some s))

pub check_token-ok :
    {W T : Type 0} (p : Provider W T) (token : Option String)
    → Checkable p token
    → (b : Bool) × (check_token p token ≡ ok b)
unfolding check_token
check_token-ok p token (inl e) = (true, rw (e, check_token))
check_token-ok p token (inr (s, e)) = elim (Option-cases p.token) [
  | inl f ↦ (true, rw (f, check_token))
  | inr (t, f) ↦ (str_eq s t, rw (f, check_token, e, strcmp_eq))
]

ok-injective : (a b : Bool) → ok a ≡ ok b → a ≡ b
ok-injective a b e = cc

-- If `check_token` says yes, the provider has no token, or the token sent is its own.
pub check_token-true :
    {W T : Type 0} (p : Provider W T) (token : Option String)
    → check_token p token ≡ ok true
    → (p.token ≡ none) ⊎ ((p.token ≡ token) × (token ≢ none))
unfolding check_token
check_token-true p token e = elim (Option-cases p.token) [
  | inl f ↦ inl f
  | inr (t, f) ↦ elim (Option-cases token) [
    | inl g ↦ cc (rw (f, g, check_token) at e)
    | inr (s, g) ↦
        let same : str_eq s t ≡ true = ok-injective _ _ (rw (f, g, check_token) at e) in
        inr (f ∙ ap some (sym ((eq_iff s t).0 same)) ∙ sym g, λ n. some-ne-none s (sym g ∙ n))
  ]
]

pub remove_cache-missing :
    {W T : Type 0} (hash : UtHash T (Cache W)) (p : Provider W T) (w : W) (id : CacheId)
    (close : Bool)
    → find_cache hash p id ≡ none
    → remove_cache hash p id close w ≡ ok (err_invalid_cache, p, w)
unfolding remove_cache
remove_cache-missing hash p w id close e = rw (e, remove_cache)

module _ {W T : Type 0} (hash : UtHash T (Cache W)) (IsHeap : W → Type 0)
    (live : W → Ptr → Bool) where
  -- The three ways in which `close_cache` and `destroy_cache` end: the token is wrong, or the cache
  -- is not there, and nothing changes; or the cache is gone.
  pub data Closed (p : Provider W T) (w : W) (input : CloseCacheIn) (out : CloseCacheOut)
      (p' : Provider W T) (w' : W) : Type 0 where
    denied :
        check_token p input.token ≡ ok false
        → out.ret ≡ err_invalid_token
        → p' ≡ p
        → w' ≡ w
        → Closed p w input out p' w'
    missing :
        check_token p input.token ≡ ok true
        → find_cache hash p input.id ≡ none
        → out.ret ≡ err_invalid_cache
        → p' ≡ p
        → w' ≡ w
        → Closed p w input out p' w'
    gone :
        check_token p input.token ≡ ok true
        → (r : Cache W) → find_cache hash p input.id ≡ some r
        → Gone hash IsHeap live p w input.id r p' w'
        → Closed p w input out p' w'

  module _ (p : Provider W T) (w : W) (s : IsSound hash IsHeap live p w) where
    -- On a sound provider, and with a token that can be checked, `close_cache` always ends. A wrong
    -- token and an id that is not there are answered by their codes, and nothing changes; otherwise the
    -- cache is gone: it cannot be found any more, its context alone has been given back, every other
    -- id finds what it did, and the provider is sound.
    pub close_cache-Closed :
        (input : CloseCacheIn)
        → Checkable p input.token
        → Returns (λ (out, p', w'). Closed p w input out p' w') (close_cache hash p w (some input))
    unfolding close_cache
    close_cache-Closed input c =
        let (valid, v) = check_token-ok p input.token c in
        elim (Bool-cases valid) [
          | inr f ↦ rw (v, f) (denied (v ∙ ap ok f) refl refl refl)
          | inl t ↦ elim (Option-cases (find_cache hash p input.id)) [
            | inl e ↦
                rw (v, t, remove_cache-missing hash p w input.id true e)
                  (missing (v ∙ ap ok t) e refl refl refl)
            | inr (r, e) ↦
                rw (v, t)
                  (Returns-bind _ _ (remove_cache hash p input.id true w) _
                    (remove_cache-Gone hash IsHeap live p w s input.id r e)
                    λ (ret, p', w') g. gone (v ∙ ap ok t) r e g)
          ]
        ]

    -- On a sound provider, and with a token that can be checked, `destroy_cache` always ends. A wrong
    -- token and an id that is not there are answered by their codes, and nothing changes; otherwise the
    -- answer is CACHERCISE_SUCCESS and the cache is gone: it cannot be found any more, its context
    -- alone has been given back, every other id finds what it did, and the provider is sound.
    pub destroy_cache-Closed :
        (input : CloseCacheIn)
        → Checkable p input.token
        → Returns
            (λ (out, p', w').
              Closed p w input out p' w'
              × ((r : Cache W)
                  → check_token p input.token ≡ ok true
                  → find_cache hash p input.id ≡ some r
                  → out.ret ≡ success))
            (destroy_cache hash p w (some input))
    unfolding destroy_cache destroy_found
    destroy_cache-Closed input c =
        let (valid, v) = check_token-ok p input.token c in
        elim (Bool-cases valid) [
          | inr f ↦ rw (v, f) (denied (v ∙ ap ok f) refl refl refl, λ r y e. cc)
          | inl t ↦ elim (Option-cases (find_cache hash p input.id)) [
            | inl e ↦
                rw (v, t, e, destroy_found) (missing (v ∙ ap ok t) e refl refl refl, λ r y f. cc)
            | inr (r, e) ↦
                rw (v, t, e)
                  (Returns-mono _ _ (destroy_found hash p w input.id (some r))
                    (destroy_found-Gone hash IsHeap live p w s input.id r e)
                    λ (out, p', w') (o, g). (gone (v ∙ ap ok t) r e g, λ r' y f. o))
          ]
        ]
